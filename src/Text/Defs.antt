-- ===== src/Text/Defs.antt =====
-- Go strings as lists of bytes, compared byte by byte.
use Prim.Native.Char.{code}
use Prim.Native.String.{String}
use mathlib.Core.List.{append-nil, append_assoc}
use exchange_server.Base.{
  ℕ, ◌≡◌, refl, ◌↔◌, Bool, true, false, ◌&&◌, List, [], ◌∷◌, ◌++◌, arith, ◌==◌, Eq, length, take,
  ltb, All, ◌≢◌, subst, Bool-cases, ==_iff, inl, inr,
}

abbrev pub Text : Type 0
Text = List ℕ

-- The bytes of an ASCII literal.
abbrev pub codes : String → Text
codes String.[] = []
codes (String.◌∷◌ c s) = code c ∷ codes s

abbrev pub text_beq : Text → Text → Bool
text_beq [] [] = true
text_beq [] (y ∷ ys) = false
text_beq (x ∷ xs) [] = false
text_beq (x ∷ xs) (y ∷ ys) = x == y && text_beq xs ys

text_beq_sound : (s t : Text) → text_beq s t ≡ true → s ≡ t
text_beq_sound [] [] h = refl
text_beq_sound [] (y ∷ ys) h = cc
text_beq_sound (x ∷ xs) [] h = cc
text_beq_sound (x ∷ xs) (y ∷ ys) h = ground (arith, text_beq_sound xs ys)

text_beq_refl : (s : Text) → text_beq s s ≡ true
text_beq_refl [] = refl
text_beq_refl (x ∷ xs) = ground (arith, text_beq_refl xs)

pub text_beq_iff : (s t : Text) → (text_beq s t ≡ true) ↔ (s ≡ t)
text_beq_iff s t = (text_beq_sound s t, λ e. subst (λ u. text_beq s u ≡ true) e (text_beq_refl s))

instance abbrev pub text_eq : Eq Text
text_eq = record { beq = text_beq; beq_iff = text_beq_iff }

abbrev pub colon : ℕ
colon = b':'

-- `len(s) > len(prefix) && s[:len(prefix)] == prefix`
unfoldable pub extends : Text → Text → Bool
extends s prefix = ltb (length prefix) (length s) && text_beq (take (length prefix) s) prefix

-- `strings.Split(s, sep)` at a separator of one byte: the field read so far comes first.
pub split_from : ℕ → Text → Text → List Text
split_from sep field [] = field ∷ []
split_from sep field (c ∷ s) = elim (c == sep) [
  | true ↦ field ∷ split_from sep [] s
  | false ↦ split_from sep (field ++ c ∷ []) s
]

unfoldable pub split : ℕ → Text → List Text
unfolding split_from
split sep s = split_from sep [] s

-- A text without the separator is one field, and ends at the first separator.
pub split_from_end :
    (sep : ℕ) (field s : Text) → All (λ c. c ≢ sep) s → split_from sep field s ≡ (field ++ s) ∷ []
unfolding split_from
split_from_end sep field [] h = rw append-nil
split_from_end sep field (c ∷ s) h = elim (Bool-cases (c == sep)) [
  | inl e ↦ absurd (h.0 ((==_iff c sep).0 e))
  | inr e ↦ rw (e, split_from) (simp append_assoc at (split_from_end sep (field ++ c ∷ []) s h.1))
]

pub split_from_at :
    (sep : ℕ) (field s t : Text)
    → All (λ c. c ≢ sep) s
    → split_from sep field (s ++ sep ∷ t) ≡ (field ++ s) ∷ split_from sep [] t
unfolding split_from
split_from_at sep field [] t h = rw (append-nil, (==_iff sep sep).1 refl, split_from)
split_from_at sep field (c ∷ s) t h = elim (Bool-cases (c == sep)) [
  | inl e ↦ absurd (h.0 ((==_iff c sep).0 e))
  | inr e ↦ rw (e, split_from) (simp append_assoc at (split_from_at sep (field ++ c ∷ []) s t h.1))
]
