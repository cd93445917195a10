-- ===== src/Prelude/Equality.antt =====
-- Decidable equality as an interface: numbers (identifiers, instants), texts and optional values.
use Prim.Native.Nat.{ℕ}
use Prim.Native.String.{String}
use mathlib.Core.Path.{◌≡◌, refl, ap, subst, sym}
use mathlib.Core.Logic.{◌↔◌}
use mathlib.Core.Bool.{Bool, true, false}
use mathlib.Core.Option.{Option, none, some}
use text.Mathlib.Text.{◌==◌ as str_eq}
use text.Mathlib.TextEquality.{eq_iff}
use natimai_tiai.Prelude.Tests.{nat_beq, nat_beq_iff, Bool-eq}

-- A test of equality that decides it.
pub record Eq {ℓ} (A : Type ℓ) : Type ℓ where
  pub equals : A → A → Bool
  pub sound : (a b : A) → equals a b ≡ true → a ≡ b
  pub complete : (a b : A) → a ≡ b → equals a b ≡ true

-- Two values, or none on both sides.
abbrev pub option_beq {ℓ} : {A : Type ℓ} ⦃e : Eq A⦄ → Option A → Option A → Bool
option_beq none none = true
option_beq none (some b) = false
option_beq (some a) none = false
option_beq ⦃e⦄ (some a) (some b) = e.equals a b

pub option_beq_iff {ℓ} :
    {A : Type ℓ} ⦃e : Eq A⦄ (a b : Option A) → (option_beq a b ≡ true) ↔ (a ≡ b)
option_beq_iff none none = (λ _. refl, λ _. refl)
option_beq_iff none (some b) = (λ h. cc, λ h. cc)
option_beq_iff (some a) none = (λ h. cc, λ h. cc)
option_beq_iff ⦃e⦄ (some a) (some b) = (λ h. ap some (e.sound a b h), λ h. e.complete a b (cc))

module _ {ℓ} {A : Type ℓ} ⦃e : Eq A⦄ where
  pub ==_refl : (a : A) → e.equals a a ≡ true
  ==_refl a = e.complete a a refl

  pub ==_sound : (a b : A) → e.equals a b ≡ true → a ≡ b
  ==_sound = e.sound

  pub ==_complete : (a b : A) → a ≡ b → e.equals a b ≡ true
  ==_complete = e.complete

instance abbrev pub option_eq {ℓ} : {A : Type ℓ} ⦃e : Eq A⦄ → Eq (Option A)
option_eq = record {
  equals = option_beq;
  sound = λ a b. (option_beq_iff a b).0;
  complete = λ a b. (option_beq_iff a b).1;
}

instance abbrev pub string_eq : Eq String
string_eq = record {
  equals = str_eq;
  sound = λ a b. (eq_iff a b).0;
  complete = λ a b. (eq_iff a b).1;
}

instance abbrev pub nat_eq : Eq ℕ
nat_eq = record {
  equals = nat_beq;
  sound = λ a b. (nat_beq_iff a b).0;
  complete = λ a b. (nat_beq_iff a b).1;
}

infix 50 ◌==◌
abbrev pub ◌==◌ {ℓ} : {A : Type ℓ} ⦃e : Eq A⦄ → A → A → Bool
◌==◌ ⦃e⦄ = e.equals

-- Equal values compare alike, and what differs from one differs from the other.
pub ==_same {ℓ} : {A : Type ℓ} ⦃e : Eq A⦄ (a b c : A) → (a == b) ≡ true → (a == c) ≡ (b == c)
==_same a b c ab = ap (λ x. x == c) (==_sound a b ab)

pub ==_apart {ℓ} :
    {A : Type ℓ} ⦃e : Eq A⦄ (a b c : A) → (a == b) ≡ false → (b == c) ≡ true → (a == c) ≡ false
==_apart a b c ab bc = subst (λ x. (a == x) ≡ false) (==_sound b c bc) ab

pub ==_swap {ℓ} : {A : Type ℓ} ⦃e : Eq A⦄ (a b : A) → (a == b) ≡ (b == a)
==_swap a b =
    Bool-eq (a == b) (b == a) (λ h. ==_complete b a (sym (==_sound a b h)))
      (λ h. ==_complete a b (sym (==_sound b a h)))
