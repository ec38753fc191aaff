-- ===== src/Api/Memory.antt =====
-- How Go values lie in memory, and copies of them: what the generated `DeepCopy` functions are made of.
-- A pointer, a slice or a map is an address and what lies there. `new` and `make` take the next address
-- that is free.
pub mod Types
pub mod Copies
pub mod Deep
pub mod Rules
use android_device_farm.Common.{◌≡◌, ℕ, suc, ◌≤◌, ◌<◌, Option, none, some, List, [], ◌∷◌, ◌++◌, All}

pub record Ref (A : Type 0) : Type 0 where
  pub address : ℕ
  pub content : A

-- A nil pointer, slice or map is `none`.
abbrev pub Pointer : Type 0 → Type 0
Pointer A = Option (Ref A)

abbrev pub Slice : Type 0 → Type 0
Slice A = Option (Ref (List A))

-- The addresses in a value, and the value with all of them forgotten.
pub record Layout (A : Type 0) : Type 0 where
  pub forget : A → A
  pub addresses : A → List ℕ

-- A copy, from the next free address on, and the next free address behind it.
abbrev pub Copier : Type 0 → Type 0
Copier A = A → ℕ → A × ℕ

-- The copy is the same value, and each address in it was allocated for it.
pub record IsDeep {A : Type 0} (l : Layout A) (copy : Copier A) : Type 0 where
  pub same : (a : A) (n : ℕ) → l.forget (copy a n).0 ≡ l.forget a
  pub grows : (a : A) (n : ℕ) → n ≤ (copy a n).1
  pub fresh : (a : A) (n : ℕ) → All (λ p. (n ≤ p) × (p < (copy a n).1)) (l.addresses (copy a n).0)

-- The fields of a struct that have references in them: `*out = *in` leaves the others as they are.
pub record Fields (S A : Type 0) : Type 0 where
  pub get : S → A
  pub put : S → A → S
  pub get_put : (s : S) (a : A) → get (put s a) ≡ a
  pub put_put : (s : S) (a b : A) → put (put s a) b ≡ put s b

module _ {A : Type 0} where
  -- A value without references, which is assigned.
  abbrev pub plain : Layout A
  plain = record { forget = λ a. a; addresses = λ a. [] }

  abbrev pub assign : Copier A
  assign a n = (a, n)

  module _ (l : Layout A) where
    abbrev pub in_ref : Layout (Ref A)
    in_ref = record {
      forget = λ r. record { address = 0; content = l.forget r.content };
      addresses = λ r. r.address ∷ l.addresses r.content;
    }

    abbrev forget_option : Option A → Option A
    forget_option none = none
    forget_option (some a) = some (l.forget a)

    abbrev addresses_option : Option A → List ℕ
    addresses_option none = []
    addresses_option (some a) = l.addresses a

    abbrev pub in_option : Layout (Option A)
    in_option = record { forget = forget_option; addresses = addresses_option }

    abbrev forget_list : List A → List A
    forget_list [] = []
    forget_list (a ∷ rest) = l.forget a ∷ forget_list rest

    abbrev addresses_list : List A → List ℕ
    addresses_list [] = []
    addresses_list (a ∷ rest) = l.addresses a ++ addresses_list rest

    abbrev pub in_list : Layout (List A)
    in_list = record { forget = forget_list; addresses = addresses_list }

  module _ (copy : Copier A) where
    -- `*out = new(T)` and `(*in).DeepCopyInto(*out)`
    abbrev pub copy_ref : Copier (Ref A)
    copy_ref r n = let (a, m) = copy r.content (suc n) in (record { address = n; content = a }, m)

    -- `if in != nil`
    abbrev pub copy_option : Copier (Option A)
    copy_option none n = (none, n)
    copy_option (some a) n = let (b, m) = copy a n in (some b, m)

    -- The loop over the elements.
    abbrev pub copy_list : Copier (List A)
    copy_list [] n = ([], n)
    copy_list (a ∷ rest) n = let (b, m) = copy a n in let (bs, k) = copy_list rest m in (b ∷ bs, k)

module _ {A B : Type 0} where
  abbrev pub in_pair : Layout A → Layout B → Layout (A × B)
  in_pair l k = record {
    forget = λ p. (l.forget p.0, k.forget p.1);
    addresses = λ p. l.addresses p.0 ++ k.addresses p.1;
  }

  -- One field after the other.
  infixr 5 ◌then◌
  abbrev pub ◌then◌ : Copier A → Copier B → Copier (A × B)
  ◌then◌ c d p n = let (a, m) = c p.0 n in let (b, k) = d p.1 m in ((a, b), k)

module _ {S A : Type 0} (f : Fields S A) where
  abbrev pub in_struct : Layout A → Layout S
  in_struct l = record {
    forget = λ s. f.put s (l.forget (f.get s));
    addresses = λ s. l.addresses (f.get s);
  }

  -- `*out = *in`, and the copies of the fields.
  abbrev pub copy_struct : Copier A → Copier S
  copy_struct copy s n = let (a, m) = copy (f.get s) n in (f.put s a, m)

module _ {A : Type 0} where
  abbrev pub in_pointer : Layout A → Layout (Pointer A)
  in_pointer l = in_option (in_ref l)

  abbrev pub in_slice : Layout A → Layout (Slice A)
  in_slice l = in_option (in_ref (in_list l))

  abbrev pub copy_pointer : Copier A → Copier (Pointer A)
  copy_pointer copy = copy_option (copy_ref copy)

  -- `make`, and `copy` or a loop over the elements
  abbrev pub copy_slice : Copier A → Copier (Slice A)
  copy_slice copy = copy_option (copy_ref (copy_list copy))
