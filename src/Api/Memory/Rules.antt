-- ===== src/Api/Memory/Rules.antt =====
-- Copies made of deep copies are deep.
use android_device_farm.Common.{
  ◌≡◌, refl, ap, ◌∙◌, ℕ, suc, ◌≤◌, ◌<◌, Option, none, some, List, [], ◌∷◌, ◌++◌, All, arith,
}
use android_device_farm.Api.Memory.{
  Layout, Copier, IsDeep, Fields, plain, assign, in_ref, in_option, in_list, in_pair, in_struct,
  in_pointer, in_slice, copy_ref, copy_option, copy_list, copy_struct, copy_pointer, copy_slice,
  ◌then◌,
}

-- Addresses allocated between two states of the allocator.
abbrev Within : ℕ → ℕ → List ℕ → Type 0
Within n m = All (λ p. (n ≤ p) × (p < m))

Within-wider : (n m n' m' : ℕ) (ps : List ℕ) → n' ≤ n → m ≤ m' → Within n m ps → Within n' m' ps
Within-wider n m n' m' [] a b h = tt
Within-wider n m n' m' (p ∷ ps) a b h =
    ((omega (arith, h.0.0), omega (arith, h.0.1)), Within-wider n m n' m' ps a b h.1)

Within-append :
    (n m k : ℕ) (ps qs : List ℕ)
    → n ≤ m
    → m ≤ k
    → Within n m ps
    → Within m k qs
    → Within n k (ps ++ qs)
Within-append n m k [] qs a b h g = Within-wider m k n k qs a (omega arith) g
Within-append n m k (p ∷ ps) qs a b h g =
    ((h.0.0, omega (arith, h.0.1)), Within-append n m k ps qs a b h.1 g)

module _ {A : Type 0} where
  pub assign-IsDeep : IsDeep {A = A} plain assign
  assign-IsDeep = record { same = λ a n. refl; grows = λ a n. omega arith; fresh = λ a n. tt }

  module _ {l : Layout A} {copy : Copier A} (deep : IsDeep l copy) where
    pub copy_ref-IsDeep : IsDeep (in_ref l) (copy_ref copy)
    copy_ref-IsDeep = record {
      same = λ r n. ap (λ a. record { address = 0; content = a }) (deep.same r.content (suc n));
      grows = λ r n. omega (arith, deep.grows r.content (suc n));
      fresh = λ r n. (
        (omega arith, omega (arith, deep.grows r.content (suc n))),
        Within-wider (suc n) _ n _ _ (omega arith) (omega arith) (deep.fresh r.content (suc n)),
      );
    }

    option_same :
        (a : Option A) (n : ℕ)
        → (in_option l).forget (copy_option copy a n).0 ≡ (in_option l).forget a
    option_same none n = refl
    option_same (some a) n = ap some (deep.same a n)

    option_grows : (a : Option A) (n : ℕ) → n ≤ (copy_option copy a n).1
    option_grows none n = omega arith
    option_grows (some a) n = deep.grows a n

    option_fresh :
        (a : Option A) (n : ℕ)
        → Within n (copy_option copy a n).1 ((in_option l).addresses (copy_option copy a n).0)
    option_fresh none n = tt
    option_fresh (some a) n = deep.fresh a n

    pub copy_option-IsDeep : IsDeep (in_option l) (copy_option copy)
    copy_option-IsDeep = record { same = option_same; grows = option_grows; fresh = option_fresh }

    list_same :
        (a : List A) (n : ℕ) → (in_list l).forget (copy_list copy a n).0 ≡ (in_list l).forget a
    list_same [] n = refl
    list_same (a ∷ rest) n = rw (deep.same a n, list_same rest (copy a n).1) refl

    list_grows : (a : List A) (n : ℕ) → n ≤ (copy_list copy a n).1
    list_grows [] n = omega arith
    list_grows (a ∷ rest) n = omega (arith, deep.grows a n, list_grows rest (copy a n).1)

    list_fresh :
        (a : List A) (n : ℕ)
        → Within n (copy_list copy a n).1 ((in_list l).addresses (copy_list copy a n).0)
    list_fresh [] n = tt
    list_fresh (a ∷ rest) n =
        Within-append n (copy a n).1 _ _ _ (deep.grows a n) (list_grows rest (copy a n).1)
          (deep.fresh a n) (list_fresh rest (copy a n).1)

    pub copy_list-IsDeep : IsDeep (in_list l) (copy_list copy)
    copy_list-IsDeep = record { same = list_same; grows = list_grows; fresh = list_fresh }

    pub copy_struct-IsDeep :
        {S : Type 0} (f : Fields S A) → IsDeep (in_struct f l) (copy_struct f copy)
    copy_struct-IsDeep f = record {
      same = λ s n.
          f.put_put s _ _
          ∙ ap (λ a. f.put s (l.forget a)) (f.get_put s _)
          ∙ ap (f.put s) (deep.same (f.get s) n);
      grows = λ s n. deep.grows (f.get s) n;
      fresh = λ s n. rw (f.get_put s (copy (f.get s) n).0) (deep.fresh (f.get s) n);
    }

module _ {A B : Type 0} {l : Layout A} {k : Layout B} {c : Copier A} {d : Copier B}
    (deep : IsDeep l c) (deep' : IsDeep k d) where
  pub then-IsDeep : IsDeep (in_pair l k) (c then d)
  then-IsDeep = record {
    same = λ p n. rw (deep.same p.0 n, deep'.same p.1 (c p.0 n).1) refl;
    grows = λ p n. omega (arith, deep.grows p.0 n, deep'.grows p.1 (c p.0 n).1);
    fresh = λ p n.
        Within-append n (c p.0 n).1 _ _ _ (deep.grows p.0 n) (deep'.grows p.1 (c p.0 n).1)
          (deep.fresh p.0 n) (deep'.fresh p.1 (c p.0 n).1);
  }

module _ {A : Type 0} {l : Layout A} {copy : Copier A} (deep : IsDeep l copy) where
  pub copy_pointer-IsDeep : IsDeep (in_pointer l) (copy_pointer copy)
  copy_pointer-IsDeep = copy_option-IsDeep (copy_ref-IsDeep deep)

  pub copy_slice-IsDeep : IsDeep (in_slice l) (copy_slice copy)
  copy_slice-IsDeep = copy_option-IsDeep (copy_ref-IsDeep (copy_list-IsDeep deep))
