-- ===== src/Auth/Exec/Triple.antt =====
-- What a call ensures, with a rule for each way to build one (auth/service.go).
use solstein.Base.{◌≡◌, refl, Bool, true, false, Option, none, some, if◌then◌else◌}
use solstein.Auth.Exec.{
  Failure, Reply, done, failed, Exec, pure, refuse, modify, continue, ◌>>=◌, or_fail, attempt,
}

-- `Q` of the result and the state, or `F` of the state after an error.
abbrev pub Ends : {S A : Type 0} → (A → S → Type 0) → (S → Type 0) → Reply A × S → Type 0
Ends Q F (done a, s) = Q a s
Ends Q F (failed e, s) = F s

-- From a state with `P`, `m` ends with `Q`, or with `F` after an error.
pub record Ensures {S A : Type 0} (P : S → Type 0) (m : Exec S A) (Q : A → S → Type 0)
    (F : S → Type 0) : Type 0 where
  pub at : (s : S) → P s → Ends Q F (m s)

module _ {S A B : Type 0} {F : S → Type 0} where
  continue-Ends :
      {Q : A → S → Type 0} {R : B → S → Type 0} (r : Reply A × S) (f : A → Exec S B)
      → Ends Q F r
      → ((a : A) → Ensures (Q a) (f a) R F)
      → Ends R F (continue r.0 f r.1)
  continue-Ends (done a, s) f h is = (is a).at s h
  continue-Ends (failed e, s) f h is = h

  pub Ensures-bind :
      {P : S → Type 0} {m : Exec S A} {f : A → Exec S B} (Q : A → S → Type 0) {R : B → S → Type 0}
      → Ensures P m Q F
      → ((a : A) → Ensures (Q a) (f a) R F)
      → Ensures P (m >>= f) R F
  unfolding ◌>>=◌
  Ensures-bind {P} {m} {f} Q is rest = record { at = λ s h. continue-Ends (m s) f (is.at s h) rest }

module _ {S A : Type 0} {Q R : A → S → Type 0} {F G : S → Type 0} where
  weaken-Ends :
      (r : Reply A × S)
      → ((a : A) (s : S) → Q a s → R a s)
      → ((s : S) → F s → G s)
      → Ends Q F r
      → Ends R G r
  weaken-Ends (done a, s) result error h = result a s h
  weaken-Ends (failed e, s) result error h = error s h

  pub Ensures-weaken :
      {P : S → Type 0} {m : Exec S A}
      → ((a : A) (s : S) → Q a s → R a s)
      → ((s : S) → F s → G s)
      → Ensures P m Q F
      → Ensures P m R G
  Ensures-weaken {P} {m} result error is = record {
    at = λ s h. weaken-Ends (m s) result error (is.at s h);
  }

module _ {S A : Type 0} {P : S → Type 0} {Q : A → S → Type 0} {F : S → Type 0} where
  pub Ensures-if :
      (b : Bool) {m n : Exec S A}
      → (b ≡ true → Ensures P m Q F)
      → (b ≡ false → Ensures P n Q F)
      → Ensures P (if b then m else n) Q F
  Ensures-if true left right = left refl
  Ensures-if false left right = right refl

  pub Ensures-refuse : {e : Failure} → ((s : S) → P s → F s) → Ensures P (refuse e) Q F
  Ensures-refuse h = record { at = h }

  pub Ensures-given :
      {X : Type 0} {m : Exec S A} → (X → Ensures P m Q F) → Ensures (λ s. P s × X) m Q F
  Ensures-given is = record { at = λ s (h, x). (is x).at s h }

-- `m` keeps `I`, and its result has `X`.
abbrev pub Keeps : {S A : Type 0} → (S → Type 0) → (A → Type 0) → Exec S A → Type 0
Keeps I X m = Ensures I m (λ a s. I s × X a) I

-- What an action gives has `X`, where it does not fail.
abbrev pub Given : {A : Type 0} → (A → Type 0) → Option A → Type 0
Given X none = Unit
Given X (some a) = X a

module _ {S A : Type 0} (I : S → Type 0) (X : A → Type 0) where
  or_fail-Ends :
      (e : Failure) (r : Reply A × S)
      → Ends (λ a s. I s × X a) I r
      → Ends (λ a s. I s × X a) I (or_fail e (λ (_ : S). r) r.1)
  unfolding or_fail
  or_fail-Ends e (done a, s) h = h
  or_fail-Ends e (failed _, s) h = h

  attempt-Ends :
      (r : Reply A × S)
      → Ends (λ a s. I s × X a) I r
      → Ends (λ a s. I s × Given X a) I (attempt (λ (_ : S). r) r.1)
  unfolding attempt
  attempt-Ends (done a, s) h = h
  attempt-Ends (failed _, s) h = (h, tt)

module _ {S : Type 0} {I : S → Type 0} where
  pub Keeps-pure : {A : Type 0} {X : A → Type 0} {a : A} → X a → Keeps I X (pure a)
  Keeps-pure x = record { at = λ s h. (h, x) }

  pub Keeps-refuse : {A : Type 0} {X : A → Type 0} {e : Failure} → Keeps I X (refuse e)
  Keeps-refuse = record { at = λ s h. h }

  pub Keeps-modify : {f : S → S} → ((s : S) → I s → I (f s)) → Keeps I (λ _. Unit) (modify f)
  Keeps-modify h = record { at = λ s i. (h s i, tt) }

  pub Keeps-if :
      {A : Type 0} {X : A → Type 0} (b : Bool) {m n : Exec S A}
      → (b ≡ true → Keeps I X m)
      → (b ≡ false → Keeps I X n)
      → Keeps I X (if b then m else n)
  Keeps-if true left right = left refl
  Keeps-if false left right = right refl

  pub Keeps-bind :
      {A B : Type 0} {m : Exec S A} {f : A → Exec S B} (X : A → Type 0) {Y : B → Type 0}
      → Keeps I X m
      → ((a : A) → X a → Keeps I Y (f a))
      → Keeps I Y (m >>= f)
  Keeps-bind X is rest =
      Ensures-bind (λ a s. I s × X a) is (λ a. record { at = λ s (h, x). (rest a x).at s h })

  pub Keeps-or_fail :
      {A : Type 0} {X : A → Type 0} (e : Failure) {m : Exec S A}
      → Keeps I X m
      → Keeps I X (or_fail e m)
  unfolding or_fail
  Keeps-or_fail {A} {X} e {m} is = record { at = λ s h. or_fail-Ends I X e (m s) (is.at s h) }

  pub Keeps-attempt :
      {A : Type 0} {X : A → Type 0} {m : Exec S A} → Keeps I X m → Keeps I (Given X) (attempt m)
  unfolding attempt
  Keeps-attempt {A} {X} {m} is = record { at = λ s h. attempt-Ends I X (m s) (is.at s h) }
