-- ===== src/Build/Strings.antt =====
-- cb.h: strings that grow, in the memory of the topmost context. Memory that an arena gives is zero:
-- `mmap` gives it so, and no two pieces overlap. A length is an `int` without bound.
use tiny_https_server.Prelude.{
  ℕ, ◌+◌, ◌-◌, ◌||◌, Option, none, some, List, [], ◌∷◌, ◌++◌, ltb, leb, ◌==◌, if◌then◌else◌, length,
  take, drop, replicate, Bytes, is_null,
}
use tiny_https_server.Prelude.Run.{Run, done, fault, ◌>>=◌, read}
use tiny_https_server.Build.{ContextStack, context_get_memory}

-- `string_t`; its `data` is `memory`, all the bytes that it points to, `none` for NULL.
pub record Str : Type 0 where
  pub size : ℕ
  pub capacity : ℕ
  pub memory : Option Bytes

abbrev pub no_string : Str
no_string = record { size = 0; capacity = 0; memory = none }

abbrev pub bytes_of : Option Bytes → Bytes
bytes_of none = []
bytes_of (some m) = m

abbrev pub zeros : ℕ → Bytes
zeros n = replicate n 0

-- `string_realloc_memory`
unfoldable pub string_realloc_memory :
    ContextStack → Option Bytes → ℕ → ℕ → Run (Option Bytes × ContextStack)
string_realloc_memory s addr old_size new_size =
    let (new_addr, s') = context_get_memory s new_size in
    let copied = take old_size (bytes_of addr) in
    elim new_addr [
      | none ↦ if is_null addr || (old_size == 0) then done (none, s') else fault
      | some at ↦
          if ltb new_size (length copied)
          then fault
          else done (some (copied ++ zeros (new_size - length copied)), s')
    ]

-- `data[0] = 0`
abbrev pub terminate : Option Bytes → Run (Option Bytes)
terminate none = fault
terminate (some []) = fault
terminate (some (b ∷ m)) = done (some (0 ∷ m))

-- `string_expand`
unfoldable pub string_expand : ContextStack → Str → ℕ → Run (Str × ContextStack)
string_expand s str inc =
    let capacity = str.capacity + inc in
    string_realloc_memory s str.memory str.size capacity >>= λ (moved, s').
    (if str.size == 0 then terminate moved else done moved) >>= λ memory.
    done (record str { capacity = capacity; memory = memory }, s')

-- `strcat` on the memory `m`: `none` is a read or a write behind its end.
abbrev pub strcat : Bytes → Bytes → Option Bytes
strcat [] d = none
strcat (b ∷ m) d =
    let rest = strcat m d in
    if b == 0
    then (if ltb (length m) (length d) then none else some (d ++ 0 ∷ drop (length d) m))
    else elim rest [ none ↦ none | some m' ↦ some (b ∷ m') ]

-- `string_append`
unfoldable pub string_append : ContextStack → Str → Bytes → Run (Str × ContextStack)
string_append s str d =
    let str' = if is_null str.memory then no_string else str in
    let used = length d + str'.size + 1 in
    (if leb str'.capacity used then string_expand s str' (used - str'.capacity) else done (str', s))
    >>= λ (grown, s'). read (strcat (bytes_of grown.memory) d) >>= λ m.
        done (record grown { size = grown.size + length d; memory = some m }, s')

-- `string_append_many`
unfoldable pub string_append_many : ContextStack → Str → List Bytes → Run (Str × ContextStack)
string_append_many s str [] = done (str, s)
string_append_many s str (d ∷ ds) =
    string_append s str d >>= λ (str', s'). string_append_many s' str' ds

-- `string_clear`
unfoldable pub string_clear : Str → Str
string_clear str = record str {
  size = 0;
  memory = elim str.memory [ none ↦ none | some m ↦ some (zeros str.size ++ drop str.size m) ];
}
