-- ===== src/Kernel/Cache.antt =====
-- The metadata cache of a broker and the generation that invalidates it, with requests that take its
-- steps one at a time (frust-kernel/kernel/src/broker.rs, `load_doctype` and `notification_rules`;
-- frust-kernel/kernel/src/tenant_gen.rs). The entries of one name are told; what is cached is told by
-- its version in the database.
pub mod Fresh
mod Tests
use frust.Prelude.{
  ℕ, zero, suc, ◌+◌, ◌-◌, ◌*◌, ◌/◌, ◌%◌, ◌^◌, ◌≤◌, ◌<◌, min, max, compare, Ordering, ◌≡◌, refl, sym,
  ap, ◌∙◌, subst, ◌≢◌, ◌↔◌, ◌⊎◌, inl, inr, Bool, true, false, not, ◌&&◌, ◌||◌, Option, none, some,
  List, [], ◌∷◌, ◌++◌, map, append-nil, append_assoc, arith, ltb, leb, ◌==◌, if◌then◌else◌, ==_iff,
  ltb→lt, leb→le, Bool-cases, Option-cases, bool_eq, length, take, drop, get_elem?, any, filter,
  find, is_empty, length-append, All, All-append, All-map, In, In-append_left, In-append_right,
  In-append,
}

-- What is cached, with the generation that it was loaded under
abbrev pub Entry : Type 0
Entry = Option (ℕ × ℕ)

-- The look into the cache: an entry of another generation does not count.
unfoldable pub probe : ℕ → Entry → Option ℕ
probe gen none = none
probe gen (some (cached_gen, meta)) = if cached_gen == gen then some meta else none

-- `insert`, over whatever the name had
unfoldable pub fill : ℕ → ℕ → Entry → Entry
fill gen meta entry = some (gen, meta)

-- `load_doctype` by a request that nobody interrupts: the cache behind it, and the metadata
unfoldable pub load_doctype : (gen stored : ℕ) → Entry → Entry × ℕ
unfolding probe fill
load_doctype gen stored entry = elim (probe gen entry) [
  | some meta ↦ (entry, meta)
  | none ↦ (fill gen stored entry, stored)
]

-- `fetch_add(1)` on 64 bits
unfoldable pub next_generation : ℕ → ℕ
next_generation gen = (gen + 1) % 2 ^ 64

-- Where a request stands, with the generation that it read and the metadata that it has
pub data Phase : Type 0 where
  idle : Phase
  entered missed : ℕ → Phase
  loaded served : ℕ → ℕ → Phase

pub record World : Type 0 where
  pub stored : ℕ
  pub generation : ℕ
  pub entry : Entry
  pub phase : ℕ → Phase
  -- what was stored when a generation began
  pub began_with : ℕ → ℕ

abbrev pub set_phase : (ℕ → Phase) → ℕ → Phase → ℕ → Phase
set_phase phase i p j = if j == i then p else phase j

abbrev pub with_entry : World → Entry → ℕ → Phase → World
with_entry w e i p = record {
  stored = w.stored;
  generation = w.generation;
  entry = e;
  phase = set_phase w.phase i p;
  began_with = w.began_with;
}

abbrev pub after_probe : ℕ → Option ℕ → Phase
after_probe gen none = missed gen
after_probe gen (some meta) = served gen meta

-- The next step of the request `i`, that stands in the given phase
unfoldable pub step_of : Phase → ℕ → World → World
unfolding probe fill
step_of idle i w = with_entry w w.entry i (entered w.generation)
step_of (entered gen) i w = with_entry w w.entry i (after_probe gen (probe gen w.entry))
step_of (missed gen) i w = with_entry w w.entry i (loaded gen w.stored)
step_of (loaded gen meta) i w = with_entry w (fill gen meta w.entry) i (served gen meta)
step_of (served gen meta) i w = w

-- A write of the metadata
abbrev pub written : World → World
written w = record {
  stored = w.stored + 1;
  generation = w.generation;
  entry = w.entry;
  phase = w.phase;
  began_with = w.began_with;
}

-- `invalidate_meta`
unfoldable pub invalidated : World → World
unfolding next_generation
invalidated w = record {
  stored = w.stored;
  generation = next_generation w.generation;
  entry = w.entry;
  phase = w.phase;
  began_with = λ g. if g == next_generation w.generation then w.stored else w.began_with g;
}

abbrev pub start : World
start = record { stored = 0; generation = 0; entry = none; phase = λ i. idle; began_with = λ g. 0 }

-- The worlds that requests, writes and invalidations lead to, in every order, as long as the 64 bits
-- of the generation last
pub data Reach : World → Type 0 where
  begin : Reach start
  request : {w : World} (i : ℕ) → Reach w → Reach (step_of (w.phase i) i w)
  write : {w : World} → Reach w → Reach (written w)
  invalidate : {w : World} → w.generation + 1 < 2 ^ 64 → Reach w → Reach (invalidated w)
