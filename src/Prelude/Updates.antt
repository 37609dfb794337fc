-- ===== src/Prelude/Updates.antt =====
-- Searches and filters of a list after a write to one of its entries, or to every entry that matches.
use Prim.Native.Nat.{◌≤◌}
use mathlib.Core.Path.{◌≡◌, refl, sym}
use mathlib.Core.Logic.{inl, inr}
use mathlib.Core.Bool.{Bool, true, false, not, ◌&&◌}
use mathlib.Core.Option.{none, some}
use mathlib.Core.List.{List, [], ◌∷◌, ◌++◌}
use native.Mathlib.Omega.{arith}
use neuravex.Prelude.Tests.{Bool-cases}
use neuravex.Prelude.Lists.{length, keep, any, find, update_first, update_all}

-- A write that keeps the key is seen by the next search for that key.
pub find-update_first :
    {A : Type 0} (p : A → Bool) (f : A → A) (xs : List A) {x : A}
    → ((y : A) → p y ≡ true → p (f y) ≡ true)
    → find p xs ≡ some x
    → find p (update_first p f xs) ≡ some (f x)
find-update_first p f [] h e = ground arith
find-update_first p f (y ∷ xs) {x} h e = elim (Bool-cases (p y)) [
  | inl t ↦ let same : y ≡ x = ground arith in rw (t, h y t, same) refl
  | inr t ↦
      let rest : find p xs ≡ some x = ground arith in rw (t, t) (find-update_first p f xs h rest)
]

module _ {A : Type 0} (p q : A → Bool) (f : A → A) where
  pub any-update_all :
      ((x : A) → p x ≡ true → q (f x) ≡ q x) → (xs : List A) → any q (update_all p f xs) ≡ any q xs
  any-update_all h [] = refl
  any-update_all h (x ∷ xs) = elim (Bool-cases (p x)) [
    | inl t ↦ rw (t, h x t, any-update_all h xs) refl
    | inr t ↦ rw (t, any-update_all h xs) refl
  ]

  pub keep-update_all :
      ((x : A) → p x ≡ true → q (f x) ≡ false)
      → (xs : List A) → keep q (update_all p f xs) ≡ keep (λ x. not (p x) && q x) xs
  keep-update_all h [] = refl
  keep-update_all h (x ∷ xs) = elim (Bool-cases (p x)) [
    | inl t ↦ rw (t, h x t) (keep-update_all h xs)
    | inr t ↦ rw (t, keep-update_all h xs) refl
  ]

module _ {A : Type 0} where
  pub any-swept :
      (p : A → Bool) (f : A → A) (xs : List A)
      → ((x : A) → p x ≡ true → p (f x) ≡ false)
      → any p (update_all p f xs) ≡ false
  any-swept p f [] h = refl
  any-swept p f (x ∷ xs) h = elim (Bool-cases (p x)) [
    | inl t ↦ rw (t, h x t) (any-swept p f xs h)
    | inr t ↦ rw (t, t) (any-swept p f xs h)
  ]

  pub keep_cong : (p q : A → Bool) → ((x : A) → p x ≡ q x) → (xs : List A) → keep p xs ≡ keep q xs
  keep_cong p q h [] = refl
  keep_cong p q h (x ∷ xs) = rw (h x, keep_cong p q h xs) refl

module _ {A : Type 0} where
  pub keep-find-none : (p : A → Bool) (xs : List A) → find p xs ≡ none → keep p xs ≡ []
  keep-find-none p [] e = refl
  keep-find-none p (x ∷ xs) e = elim (Bool-cases (p x)) [
    | inl t ↦ ground arith
    | inr t ↦ let rest : find p xs ≡ none = ground arith in rw t (keep-find-none p xs rest)
  ]

  pub keep-append : (p : A → Bool) (xs ys : List A) → keep p (xs ++ ys) ≡ keep p xs ++ keep p ys
  keep-append p [] ys = refl
  keep-append p (x ∷ xs) ys = elim (Bool-cases (p x)) [
    | inl t ↦ rw (t, keep-append p xs ys) refl
    | inr t ↦ rw t (keep-append p xs ys)
  ]

  pub length-keep-update_first :
      (p : A → Bool) (f : A → A) (xs : List A)
      → length (keep p (update_first p f xs)) ≤ length (keep p xs)
  length-keep-update_first p f [] = omega arith
  length-keep-update_first p f (x ∷ xs) = elim (Bool-cases (p x)) [
    | inl t ↦ elim (Bool-cases (p (f x))) [
      | inl u ↦ rw (t, u) (omega arith)
      | inr u ↦ rw (t, u) (omega arith)
    ]
    | inr t ↦ rw (t, t) (length-keep-update_first p f xs)
  ]

  pub keep-update_first :
      (p q : A → Bool) (f : A → A) (xs : List A)
      → ((x : A) → p x ≡ true → (q x ≡ false) × (q (f x) ≡ false))
      → keep q (update_first p f xs) ≡ keep q xs
  keep-update_first p q f [] h = refl
  keep-update_first p q f (x ∷ xs) h = elim (Bool-cases (p x)) [
    | inl t ↦ rw (t, (h x t).0, (h x t).1) refl
    | inr t ↦ rw (t, keep-update_first p q f xs h) refl
  ]

  pub find-append :
      (p : A → Bool) (xs ys : List A) {x : A} → find p xs ≡ some x → find p (xs ++ ys) ≡ some x
  find-append p [] ys e = ground arith
  find-append p (y ∷ xs) ys {x} e = elim (Bool-cases (p y)) [
    | inl t ↦ ground arith
    | inr t ↦ let rest : find p xs ≡ some x = ground arith in rw t (find-append p xs ys rest)
  ]

  -- A write to entries that the search passes over, before it and after it.
  pub find-update_first-apart :
      (p q : A → Bool) (f : A → A) (xs : List A)
      → ((x : A) → q x ≡ true → (p x ≡ false) × (p (f x) ≡ false))
      → find p (update_first q f xs) ≡ find p xs
  find-update_first-apart p q f [] apart = refl
  find-update_first-apart p q f (y ∷ xs) apart = elim (Bool-cases (q y)) [
    | inl t ↦ rw (t, (apart y t).0, (apart y t).1) refl
    | inr t ↦ rw (t, find-update_first-apart p q f xs apart) refl
  ]

  -- A write to every entry that matches, when it keeps the key and the entry found does not match.
  pub find-update_all :
      (p q : A → Bool) (f : A → A) (xs : List A) {x : A}
      → ((y : A) → p (f y) ≡ p y)
      → q x ≡ false
      → find p xs ≡ some x
      → find p (update_all q f xs) ≡ some x
  find-update_all p q f [] keeps h e = ground arith
  find-update_all p q f (y ∷ xs) {x} keeps h e = elim (Bool-cases (p y)) [
    | inl t ↦ let same : y ≡ x = ground arith in rw (same, h) (rw (sym same, t) refl)
    | inr t ↦
        let rest : find p xs ≡ some x = ground arith in
        elim (Bool-cases (q y)) [
          | inl u ↦ rw (u, keeps y, t) (find-update_all p q f xs keeps h rest)
          | inr u ↦ rw (u, t) (find-update_all p q f xs keeps h rest)
        ]
  ]

  pub any-find :
      (p q : A → Bool) (xs : List A) {x : A} → find p xs ≡ some x → q x ≡ true → any q xs ≡ true
  any-find p q [] e h = ground arith
  any-find p q (y ∷ xs) {x} e h = elim (Bool-cases (p y)) [
    | inl t ↦ let same : y ≡ x = ground arith in rw (same, h) refl
    | inr t ↦
        let rest : find p xs ≡ some x = ground arith in
        let found = any-find p q xs rest h in ground arith
  ]
