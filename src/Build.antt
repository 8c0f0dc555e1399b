-- ===== src/Build.antt =====
-- cb.h: the memory of the build program.
pub mod Pieces
pub mod Contexts
pub mod Growth
pub mod Strings
pub mod Text
pub mod Paths
pub mod Fetch
mod Tests
use tiny_https_server.Prelude.{
  ℕ, ◌+◌, ◌-◌, ◌*◌, ◌/◌, ◌%◌, ◌^◌, ◌≡◌, Bool, true, false, Option, none, some, List, [], ◌∷◌, ltb,
  leb, if◌then◌else◌, length, get_or, set, take, drop, replicate, Bytes, ◌==◌, ◌++◌,
}

-- `arena_t`. An address in the arena is the offset from its start; `reserved` is whether `data` is
-- not NULL.
pub record Arena : Type 0 where
  pub size : ℕ
  pub free_offset : ℕ
  pub reserved : Bool

abbrev pub no_arena : Arena
no_arena = record { size = 0; free_offset = 0; reserved = false }

-- `TEMP_DEFAULT_SIZE`
abbrev pub temp_default_size : ℕ
temp_default_size = 32 * 1024 * 1024

-- `ALIGN_TO_WORD_SIZE` on `size_t`; the mask clears the three low bits.
unfoldable pub align_to_word_size : ℕ → ℕ
align_to_word_size size = if ltb size 8 then 8 else (size + 7) % 2 ^ 64 / 8 * 8

-- The reservation of `arena_get_memory`. `mmap` never answers NULL; it is taken to succeed.
unfoldable pub reserve : Arena → Arena
reserve a =
    if a.reserved then a else record { size = temp_default_size; free_offset = 0; reserved = true }

-- `arena_get_memory`: the offset of the memory, and the arena.
unfoldable pub arena_get_memory : Arena → ℕ → Option ℕ × Arena
arena_get_memory arena size =
    let a = reserve arena in
    if ltb ((a.size + 2 ^ 64 - a.free_offset) % 2 ^ 64) (align_to_word_size size)
    then (none, a)
    else (
      some a.free_offset,
      record a { free_offset = (a.free_offset + align_to_word_size size) % 2 ^ 64 },
    )

-- `arena_flush`
unfoldable pub arena_flush : Arena → Arena
arena_flush a = if a.reserved then no_arena else a

-- `arena_context_t`
pub record ArenaContext : Type 0 where
  pub context : Bytes
  pub arena : Arena

abbrev pub no_context : ArenaContext
no_context = record { context = []; arena = no_arena }

-- `context_stack`, and the number of mappings that the process has and that arenas reserved.
pub record ContextStack : Type 0 where
  pub mapped : ℕ
  pub size : ℕ
  pub last : ℕ
  pub contexts : List ArenaContext

abbrev pub no_stack : ContextStack
no_stack = record { mapped = 0; size = 0; last = 0; contexts = [] }

-- `context_stack_expand`: `realloc` keeps the contexts and adds ten, of which `junk` is what they
-- hold; the `memset` clears the FIRST ten.
unfoldable pub context_stack_expand : ContextStack → List ArenaContext → ContextStack
context_stack_expand s junk = record s {
  size = s.size + 10;
  contexts = replicate 10 no_context ++ drop 10 (s.contexts ++ take 10 junk);
}

-- `context_get_memory`; an arena without memory gets a mapping.
unfoldable pub context_get_memory : ContextStack → ℕ → Option ℕ × ContextStack
context_get_memory s size =
    let at = s.last - 1 in
    let c = get_or s.contexts at no_context in
    let (addr, arena) = arena_get_memory c.arena size in
    if s.last == 0 then (none, s) else (
      addr,
      record s {
        mapped = if c.arena.reserved then s.mapped else s.mapped + 1;
        contexts = set s.contexts at (record c { arena = arena });
      },
    )

-- `context_push`: `none` for -1, and the index of the context.
unfoldable pub context_push : ContextStack → List ArenaContext → Bytes → Option ℕ × ContextStack
context_push s junk context_name =
    let s' = if s.last == s.size then context_stack_expand s junk else s in
    let c = get_or s'.contexts s'.last no_context in
    if leb 256 (length context_name) then (none, s) else (
      some s'.last,
      record s' {
        last = s'.last + 1;
        contexts = set s'.contexts s'.last (record c { context = context_name });
      },
    )

-- `context_pop`; the flush of a reserved arena unmaps it.
unfoldable pub context_pop : ContextStack → Option ℕ × ContextStack
context_pop s =
    let at = s.last - 1 in
    let c = get_or s.contexts at no_context in
    if s.last == 0 then (none, s) else (
      some at,
      record s {
        mapped = if c.arena.reserved then s.mapped - 1 else s.mapped;
        last = at;
        contexts = set s.contexts at (record { context = []; arena = arena_flush c.arena });
      },
    )
