-- ===== src/Session/Fields.antt =====
-- The `char` arrays of http_libs/http_session.c: `strncpy` into one, and `strcmp` on one.
use tiny_https_server.Prelude.{
  ℕ, zero, suc, ◌<◌, ◌≡◌, refl, Bool, true, false, Option, none, some, [], ◌∷◌, ◌==◌, if◌then◌else◌,
  length, Bytes, str_eq, arith,
}

-- `strncpy(field, s, n)`: the first `n` bytes of the text, padded with zeros; with no zero at all
-- if the text is too long.
unfoldable pub strncpy : ℕ → Bytes → Bytes
strncpy zero s = []
strncpy (suc n) [] = 0 ∷ strncpy n []
strncpy (suc n) (c ∷ s) = c ∷ strncpy n s

-- `strcmp(field, s) == 0`; `none` is a read behind the field's end.
unfoldable pub strcmp_field : Bytes → Bytes → Option Bool
strcmp_field [] s = none
strcmp_field (b ∷ f) [] = some (b == 0)
strcmp_field (b ∷ f) (c ∷ s) = elim (b == c) [ true ↦ strcmp_field f s | false ↦ some false ]

-- The text that a field holds.
unfoldable pub text : Bytes → Bytes
text [] = []
text (b ∷ f) = let rest = text f in if b == 0 then [] else b ∷ rest

-- A field with a terminator, and a text without one.
abbrev pub terminated : Bytes → Bool
terminated [] = false
terminated (b ∷ f) = if b == 0 then true else terminated f

abbrev pub IsText : Bytes → Type 0
IsText [] = Unit {0}
IsText (c ∷ s) = (0 < c) × IsText s

-- On a terminated field `strcmp` stays inside, and compares the texts.
pub strcmp_field_lem :
    (f s : Bytes) → terminated f ≡ true → IsText s → strcmp_field f s ≡ some (str_eq (text f) s)
unfolding strcmp_field text
strcmp_field_lem [] s t v = cc
strcmp_field_lem (b ∷ f) [] t v = ground arith
strcmp_field_lem (b ∷ f) (c ∷ s) t v = ground (arith, strcmp_field_lem f s)

-- A text shorter than the field is stored whole, with its terminator.
pub text-strncpy : (n : ℕ) (s : Bytes) → IsText s → length s < n → text (strncpy n s) ≡ s
unfolding text strncpy
text-strncpy zero s v h = absurd (omega arith)
text-strncpy (suc n) [] v h = refl
text-strncpy (suc n) (c ∷ s) v h = ground (arith, text-strncpy n s)

pub terminated-strncpy : (n : ℕ) (s : Bytes) → length s < n → terminated (strncpy n s) ≡ true
unfolding strncpy
terminated-strncpy zero s h = absurd (omega arith)
terminated-strncpy (suc n) [] h = refl
terminated-strncpy (suc n) (c ∷ s) h = ground (arith, terminated-strncpy n s)
