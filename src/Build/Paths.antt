-- ===== src/Build/Paths.antt =====
-- cb.h: strings that are appended to, as the paths of the build program are.
use mathlib.Core.Path.{subst}
use native.Mathlib.Decide.{dec_lt}
use tiny_https_server.Prelude.{
  ℕ, zero, suc, ◌+◌, ◌-◌, ◌^◌, ◌≤◌, ◌<◌, ◌≡◌, refl, sym, ap, ◌∙◌, inl, inr, true, false, Option,
  none, some, List, [], ◌∷◌, ◌++◌, arith, leb, if◌then◌else◌, length, drop, Bytes, is_null,
  append_assoc, length-append,
}
use tiny_https_server.Prelude.Run.{Run, done}
use tiny_https_server.Session.Fields.{IsText}
use tiny_https_server.Build.{align_to_word_size, ContextStack}
use tiny_https_server.Build.Text.{Ready, Holds, strcat_lem, expand_lem}
use tiny_https_server.Build.Strings.{
  Str, no_string, zeros, bytes_of, string_expand, strcat, string_append, string_append_many,
  string_clear,
}

append-IsText : (t d : Bytes) → IsText t → IsText d → IsText (t ++ d)
append-IsText [] d v w = w
append-IsText (b ∷ t) d (pos, v) w = (pos, append-IsText t d v w)

-- A string without memory is taken for an empty one.
abbrev known : Str → Str
known str = if is_null str.memory then no_string else str

known-Holds : (str : Str) (t : Bytes) → Holds str t → Holds (known str) t
known-Holds str t h = elim h.memory as (λ _. Holds (known str) t) [
  | inl (null, none', empty) ↦
      simp null (record {
        text = h.text;
        size_eq = ap length (sym empty);
        memory = inl (refl, refl, empty);
      })
  | inr (m, lt) ↦ simp m h
]

-- `strcat` behind the text of a string that has room for it.
module _ (str : Str) (t d : Bytes) (h : Holds str t) (v : IsText d)
    (memory : str.memory ≡ some (t ++ zeros (str.capacity - length t)))
    (room : length t + length d < str.capacity) where
  abbrev longer : Str
  longer = record str {
    size = str.size + length d;
    memory = some (t ++ (d ++ zeros (str.capacity - length t - length d)));
  }

  strcat_known :
      strcat (bytes_of str.memory) d ≡ some (t ++ (d ++ zeros (str.capacity - length t - length d)))
  strcat_known =
      ap (λ m. strcat (bytes_of m) d) memory
      ∙ strcat_lem t d (str.capacity - length t) h.text (omega arith)

  longer-Holds : Holds longer (t ++ d)
  longer-Holds = record {
    text = append-IsText t d h.text v;
    size_eq = omega (arith, h.size_eq, length-append t d);
    memory =
        let left : str.capacity - length t - length d ≡ str.capacity - length (t ++ d) =
          omega (arith, length-append t d) in
        inr (
          ap some (sym (append_assoc t d _)) ∙ ap (λ n. some ((t ++ d) ++ zeros n)) left,
          omega (arith, length-append t d),
        );
  }

-- What `string_append` makes of a string: the text is longer, and `r` bytes are left.
abbrev pub Appended : Run (Str × ContextStack) → Bytes → ℕ → Type 0
Appended res t r =
    (str' : Str) × (s' : ContextStack) × (res ≡ done (str', s')) × Holds str' t × Ready s' r

Ready-less : (s : ContextStack) (n r : ℕ) → r ≤ n → Ready s n → Ready s r
Ready-less s n r le v = record {
  some_context = v.some_context;
  inside = v.inside;
  arena = v.arena;
  room = omega (arith, v.room);
}

module _ (s : ContextStack) (str : Str) (t d : Bytes) (r : ℕ) (h : Holds str t) (v : IsText d)
    (small : length t + length d + 8 < 2 ^ 63)
    (ready : Ready s (align_to_word_size (length t + length d + 1) + r)) where
  abbrev k : Str
  k = known str

  abbrev used : ℕ
  used = length d + k.size + 1

  held : Holds k t
  held = known-Holds str t h

  appended :
      (g : Str) (s' : ContextStack) (hg : Holds g t)
      → (if leb k.capacity used then string_expand s k (used - k.capacity) else done (k, s))
        ≡ done (g, s')
      → g.memory ≡ some (t ++ zeros (g.capacity - length t))
      → length t + length d < g.capacity
      → Ready s' r
      → Appended (string_append s str d) (t ++ d) r
  unfolding string_append
  appended g s' hg grown memory room ready' = (
    longer g t d hg v memory room,
    s',
    simp (string_append, grown, strcat_known g t d hg v memory room),
    longer-Holds g t d hg v memory room,
    ready',
  )

  in_place : used < k.capacity → Appended (string_append s str d) (t ++ d) r
  in_place room = elim held.memory [
    | inl (null, none', empty) ↦ absurd (omega arith)
    | inr (memory, lt) ↦
        let fits : leb k.capacity used ≡ false = ground arith in
        appended k s held
          (ap (λ b. if b then string_expand s k (used - k.capacity) else done (k, s)) fits) memory
          (omega (arith, held.size_eq)) (Ready-less s _ r (omega arith) ready)
  ]

  expanded : k.capacity ≤ used → Appended (string_append s str d) (t ++ d) r
  expanded full =
      let inc = used - k.capacity in
      let cap' : length t + length d + 1 ≡ k.capacity + inc = omega (arith, held.size_eq) in
      let ready' = subst (λ n. Ready s (align_to_word_size n + r)) cap' ready in
      let (s', eq, left) = expand_lem s k t inc r held (omega arith) (omega arith) ready' in
      let g = record k {
        capacity = k.capacity + inc;
        memory = some (t ++ zeros (k.capacity + inc - length t));
      } in
      let grows : leb k.capacity used ≡ true = ground arith in
      appended g s'
        (record { text = h.text; size_eq = held.size_eq; memory = inr (refl, omega arith) })
        (ap (λ b. if b then string_expand s k inc else done (k, s)) grows ∙ eq) refl (omega arith)
        left

  -- A string that holds a text, after `string_append` of another: it holds the two, where there is a
  -- context whose arena has room for them.
  pub string_append_lem : Appended (string_append s str d) (t ++ d) r
  string_append_lem = elim (dec_lt used k.capacity) [
    | yes room ↦ in_place room
    | no full ↦ expanded (omega arith)
  ]

-- The memory that a list of texts needs at most, behind a text of `n` bytes.
abbrev pub needs : ℕ → List Bytes → ℕ
needs n [] = 0
needs n (d ∷ ds) = align_to_word_size (n + length d + 1) + needs (n + length d) ds

abbrev pub AllTexts : List Bytes → Type 0
AllTexts [] = Unit {0}
AllTexts (d ∷ ds) = IsText d × AllTexts ds

abbrev pub joined : Bytes → List Bytes → Bytes
joined t [] = t
joined t (d ∷ ds) = joined (t ++ d) ds

joined_le : (t : Bytes) (ds : List Bytes) → length t ≤ length (joined t ds)
joined_le t [] = omega arith
joined_le t (d ∷ ds) = omega (arith, joined_le (t ++ d) ds, length-append t d)

pub string_append_many_lem :
    (s : ContextStack) (str : Str) (t : Bytes) (ds : List Bytes)
    → Holds str t
    → AllTexts ds
    → length (joined t ds) + 8 < 2 ^ 63
    → Ready s (needs (length t) ds)
    → Appended (string_append_many s str ds) (joined t ds) 0
unfolding string_append_many
string_append_many_lem s str t [] h v small ready = (str, s, refl, h, ready)
string_append_many_lem s str t (d ∷ ds) h (vd, v) small ready =
    let longer : length t + length d ≤ length (joined t (d ∷ ds)) =
      omega (arith, joined_le (t ++ d) ds, length-append t d) in
    let (str', s', eq, h', ready') =
      string_append_lem s str t d (needs (length t + length d) ds) h vd (omega arith) ready in
    let len : length t + length d ≡ length (t ++ d) = omega (arith, length-append t d) in
    let (str'', s'', eq', h'', ready'') =
      string_append_many_lem s' str' (t ++ d) ds h' v small
        (subst (λ n. Ready s' (needs n ds)) len ready') in
    (str'', s'', rw eq eq', h'', ready'')

drop-append : (t z : Bytes) → drop (length t) (t ++ z) ≡ z
drop-append [] z = refl
drop-append (b ∷ t) z = drop-append t z

zeros_add : (m n : ℕ) → zeros m ++ zeros n ≡ zeros (m + n)
zeros_add zero n = let e : n ≡ 0 + n = omega arith in ap zeros e
zeros_add (suc m) n =
    let e : suc (m + n) ≡ suc m + n = omega arith in ap (◌∷◌ 0) (zeros_add m n) ∙ ap zeros e

abbrev wiped : ℕ → Option Bytes → Option Bytes
wiped n none = none
wiped n (some m) = some (zeros n ++ drop n m)

-- A string that is cleared holds the empty text.
pub string_clear_lem : (str : Str) (t : Bytes) → Holds str t → Holds (string_clear str) []
unfolding string_clear
string_clear_lem str t h = record {
  text = tt;
  size_eq = refl;
  memory = elim h.memory [
    | inl (null, none', empty) ↦ inl (ap (wiped str.size) null, none', refl)
    | inr (m, lt) ↦
        let all : length t + (str.capacity - length t) ≡ str.capacity - 0 = omega arith in
        inr (
          ap (wiped str.size) m
              ∙ ap (λ n. wiped n (some (t ++ zeros (str.capacity - length t)))) h.size_eq
              ∙ ap (λ z. some (zeros (length t) ++ z))
                  (drop-append t (zeros (str.capacity - length t)))
              ∙ ap some (zeros_add (length t) (str.capacity - length t))
              ∙ ap (λ n. some (zeros n)) all,
          omega arith,
        )
  ];
}
