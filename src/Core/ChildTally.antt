-- ===== src/Core/ChildTally.antt =====
-- internal/core/child_tally.go: child Tasks summarized, for the live frame.
use Prim.Native.Nat.{max}
use evident_output.Prelude.{
  ℕ, ◌+◌, Bool, true, false, not, ◌&&◌, ◌||◌, List, [], ◌∷◌, String, ltb, ◌==◌, if◌then◌else◌,
  length, codes,
}
use evident_output.Core.State.{EntityState, skipped, is_terminal_task}
use evident_output.Core.Snapshot.{TaskSnapshot}
use evident_output.Core.Tally.{Dispositions}

-- `earliest_seen` is 0, the zero time, until a child was seen.
pub record ChildCounts : Type 0 where
  pub total : ℕ
  pub done : ℕ
  pub running : Bool
  pub pending : Bool
  pub unfinished : Bool
  pub earliest_seen : ℕ
  pub name_width : ℕ

abbrev pub no_children : ChildCounts
no_children = record {
  total = 0;
  done = 0;
  running = false;
  pending = false;
  unfinished = false;
  earliest_seen = 0;
  name_width = 0;
}

-- `utf8.RuneCountInString`
abbrev pub rune_count : String → ℕ
rune_count s = length (codes s)

-- The earlier of two moments of which the zero time stands for none: the last test of `Add` and of
-- `Merge`.
abbrev pub earlier : ℕ → ℕ → ℕ
earlier seen earliest =
    if not (seen == 0) && (earliest == 0 || ltb seen earliest) then seen else earliest

-- The switch of `Add` on the child's state.
unfoldable pub count_state : EntityState → ChildCounts → ChildCounts
count_state EntityState.done c = record c { done = c.done + 1 }
count_state skipped c = record c { done = c.done + 1 }
count_state EntityState.running c = record c { running = true }
count_state EntityState.pending c = record c { pending = true }
count_state _ c = c

unfoldable pub add_child : ChildCounts → TaskSnapshot → ChildCounts
unfolding count_state is_terminal_task
add_child c t =
    let counted = count_state t.state (record c { total = c.total + 1 }) in
    record counted {
      unfinished = if not (is_terminal_task t.state) then true else counted.unfinished;
      name_width = max counted.name_width (rune_count t.name);
      earliest_seen = earlier t.live_first_seen_at counted.earliest_seen;
    }

unfoldable pub merge : ChildCounts → ChildCounts → ChildCounts
merge c o = record {
  total = c.total + o.total;
  done = c.done + o.done;
  running = c.running || o.running;
  pending = c.pending || o.pending;
  unfinished = c.unfinished || o.unfinished;
  name_width = max c.name_width o.name_width;
  earliest_seen = earlier o.earliest_seen c.earliest_seen;
}

unfoldable pub count_from : ChildCounts → List TaskSnapshot → ChildCounts
unfolding add_child
count_from c [] = c
count_from c (t ∷ tasks) = count_from (add_child c t) tasks

unfoldable pub count_tasks : List TaskSnapshot → ChildCounts
unfolding count_from
count_tasks tasks = count_from no_children tasks

pub record ChildTally : Type 0 where
  pub all : ChildCounts
  pub folded : Bool
  pub items : Dispositions
  pub rest : ChildCounts

pub record CollectionTally : Type 0 where
  pub count : ℕ
  pub tasks : ChildCounts
  pub settled : ℕ
  pub own_rows : ℕ
  pub own_row_name_width : ℕ
