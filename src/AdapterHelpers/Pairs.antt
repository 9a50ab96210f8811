-- ===== src/AdapterHelpers/Pairs.antt =====
-- Commands with two arguments: both are required, and a test of them decides.
use anolis_provider_bread.Base.{
  Bool, true, ◌&&◌, false, ◌⊎◌, inl, inr, ◌≡◌, refl, sym, ap, ◌∙◌, Option, none, some, Bool-cases,
}
use anolis_provider_bread.Devices.{AdapterCallResult}
use anolis_provider_bread.AdapterHelpers.Checked.{
  Checked, refused, checked, ◌>>=◌, ◌>>◌, require, guard,
}

-- Two arguments that are present and pass a test.
abbrev pub Given : {A : Type 0} → Option A → Option A → (A → A → Bool) → A → A → Type 0
Given o p test a b = (o ≡ some a) × (p ≡ some b) × (test a b ≡ true)

abbrev pub NotGiven : {A : Type 0} → Option A → Option A → (A → A → Bool) → Type 0
NotGiven {A} o p test = (a b : A) → o ≡ some a → p ≡ some b → test a b ≡ false

abbrev pub Refuses : {B : Type 0} → Checked B → Type 0
Refuses run = (r : AdapterCallResult) × (run ≡ refused r) × (r.ok ≡ false)

-- A command is refused exactly where its arguments are not given.
abbrev pub Outcome :
    {A B : Type 0} → Checked B → Option A → Option A → (A → A → Bool) → (A → A → B) → Type 0
Outcome {A} run o p test encode =
    (Refuses run × NotGiven o p test)
    ⊎ ((a b : A) × Given o p test a b × (run ≡ checked (encode a b)))

some_inj : {A : Type 0} (a b : A) → some a ≡ some b → a ≡ b
some_inj a b e = cc

module _ {A B : Type 0} (missing_1 missing_2 outside : AdapterCallResult) (test : A → A → Bool)
    (encode : A → A → B) where
  abbrev pub pair_command : Option A → Option A → Checked B
  pair_command o p = do
    a ← require o missing_1
    b ← require p missing_2
    guard (test a b) outside
    checked (encode a b)

  pub pair_command-cases :
      missing_1.ok ≡ false
      → missing_2.ok ≡ false
      → outside.ok ≡ false
      → (o p : Option A) → Outcome (pair_command o p) o p test encode
  pair_command-cases h1 h2 h3 none p = inl ((missing_1, refl, h1), λ a b e f. cc)
  pair_command-cases h1 h2 h3 (some a) none = inl ((missing_2, refl, h2), λ x y e f. cc)
  pair_command-cases h1 h2 h3 (some a) (some b) = elim (Bool-cases (test a b)) [
    | inl good ↦ inr (a, b, (refl, refl, good), rw good refl)
    | inr bad ↦ inl (
      (outside, rw bad refl, h3),
      λ x y e f.
          ap (λ z. test z y) (sym (some_inj a x e)) ∙ ap (test a) (sym (some_inj b y f)) ∙ bad,
    )
  ]

-- The same with three tests, one after the other.
module _ {A B : Type 0} (missing_1 missing_2 fails_1 fails_2 fails_3 : AdapterCallResult)
    (test_1 test_2 test_3 : A → A → Bool) (encode : A → A → B) where
  abbrev pub tested_command : Option A → Option A → Checked B
  tested_command o p = do
    a ← require o missing_1
    b ← require p missing_2
    guard (test_1 a b) fails_1
    guard (test_2 a b) fails_2
    guard (test_3 a b) fails_3
    checked (encode a b)

  abbrev pub all_tests : A → A → Bool
  all_tests a b = test_1 a b && (test_2 a b && test_3 a b)

  not_given : (a b : A) → all_tests a b ≡ false → NotGiven (some a) (some b) all_tests
  not_given a b bad x y e f =
      ap (λ z. all_tests z y) (sym (some_inj a x e)) ∙ ap (all_tests a) (sym (some_inj b y f)) ∙ bad

  pub tested_command-cases :
      missing_1.ok ≡ false
      → missing_2.ok ≡ false
      → fails_1.ok ≡ false
      → fails_2.ok ≡ false
      → fails_3.ok ≡ false
      → (o p : Option A) → Outcome (tested_command o p) o p all_tests encode
  tested_command-cases h1 h2 h3 h4 h5 none p = inl ((missing_1, refl, h1), λ a b e f. cc)
  tested_command-cases h1 h2 h3 h4 h5 (some a) none = inl ((missing_2, refl, h2), λ x y e f. cc)
  tested_command-cases h1 h2 h3 h4 h5 (some a) (some b) = elim (Bool-cases (test_1 a b)) [
    | inr bad ↦ inl ((fails_1, rw bad refl, h3), not_given a b (rw bad refl))
    | inl good_1 ↦ elim (Bool-cases (test_2 a b)) [
      | inr bad ↦ inl ((fails_2, rw (good_1, bad) refl, h4), not_given a b (rw (good_1, bad) refl))
      | inl good_2 ↦ elim (Bool-cases (test_3 a b)) [
        | inr bad ↦ inl (
          (fails_3, rw (good_1, good_2, bad) refl, h5),
          not_given a b (rw (good_1, good_2, bad) refl),
        )
        | inl good_3 ↦
            inr (
              a,
              b,
              (refl, refl, rw (good_1, good_2, good_3) refl),
              rw (good_1, good_2, good_3) refl,
            )
      ]
    ]
  ]
