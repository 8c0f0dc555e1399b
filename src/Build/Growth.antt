-- ===== src/Build/Growth.antt =====
-- cb.h: a push on a stack of contexts that is full.
use tiny_https_server.Prelude.{
  ℕ, ◌+◌, ◌≤◌, ◌<◌, ◌≡◌, ap, ◌∙◌, true, false, Option, some, List, arith, leb, ◌==◌, length, set,
  Bytes, get_or-append_left, get_or-replicate, replicate, drop, take, ◌++◌, get_or-set_ne,
}
use tiny_https_server.Build.Contexts.{slot}
use tiny_https_server.Build.{
  ArenaContext, no_context, ContextStack, context_stack_expand, context_push,
}

full_push :
    (junk : List ArenaContext) (s : ContextStack) (name : Bytes)
    → s.last ≡ s.size
    → length name < 256
    → let e = context_stack_expand s junk in
      context_push s junk name ≡ (
        some e.last,
        record e {
          last = e.last + 1;
          contexts = set e.contexts e.last (record (slot e e.last) { context = name });
        },
      )
unfolding context_push
full_push junk s name full short =
    let full' : (s.last == s.size) ≡ true = ground arith in
    let short' : leb 256 (length name) ≡ false = ground arith in simp (full', short')

-- On a full stack of ten contexts or more, a push of a context of a short name succeeds and clears
-- the oldest ten: nothing is left of their names and arenas.
pub full_push_clears :
    (junk : List ArenaContext) (s : ContextStack) (name : Bytes) (i : ℕ)
    → s.last ≡ s.size
    → 10 ≤ s.size
    → length name < 256
    → i < 10
    → ((context_push s junk name).0 ≡ some s.last)
      × (slot (context_push s junk name).1 i ≡ no_context)
unfolding context_stack_expand
full_push_clears junk s name i full ten short lt =
    let e = context_stack_expand s junk in
    (
      ap (λ (r : Option ℕ × ContextStack). r.0) (full_push junk s name full short),
      ap (λ (r : Option ℕ × ContextStack). slot r.1 i) (full_push junk s name full short)
          ∙ get_or-set_ne e.contexts e.last i (record (slot e e.last) { context = name }) no_context
              (λ at. omega arith)
          ∙ get_or-append_left (replicate 10 no_context) (drop 10 (s.contexts ++ take 10 junk)) i
              no_context lt
          ∙ get_or-replicate 10 i no_context,
    )
