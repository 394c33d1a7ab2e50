-- ===== src/PipeDemo/Tests.antt =====
-- The theorem about `pipe_sync` at a run in which both children end.
use myfreelib.Base.{◌≡◌, ◌≤◌, ◌⊎◌, refl}
use myfreelib.PipeDemo.Sync.{
  State, ParentAt, ChildAt, start, PipeEnd, Step, Reach, here, next, closed_read, close_failed,
  slept, printed, closed_own,
}
use myfreelib.PipeDemo.Progress
use myfreelib.PipeDemo.Progress.{begins, extended, Over, GoesOn, sync_ends}
use myfreelib.PipeDemo.Safety.{Released, parent_waits_for_both}

abbrev no_writers : PipeEnd
no_writers = record {
  Ends = λ n. n ≡ 0;
  ends_without_writers = λ {n} h. h;
  without_writers_ends = refl;
}

record Run : Type 0 where
  last : State
  reach : Reach no_writers last

abbrev by_step : (r : Run) {u : State} → Step no_writers r.last u → Run
by_step r st = record { last = _; reach = next r.reach st }

abbrev both_forked : Run
both_forked =
    let a = by_step (record { last = start; reach = here }) (Step.forked_first refl refl) in
    let b = by_step a (Step.forked_second refl refl) in by_step b (Step.closed_write refl)

-- The first child sleeps and closes its end; the second fails at its first `close`.
abbrev at_end : Run
at_end =
    let a = by_step both_forked (Step.first_moves closed_read) in
    let b = by_step a (Step.first_moves slept) in
    let c = by_step b (Step.second_moves close_failed) in
    let d = by_step c (Step.first_moves printed) in
    let e = by_step d (Step.first_moves closed_own) in by_step e (Step.read_end refl refl)

parent_waits_for_both_example : Released at_end.last.first × Released at_end.last.second
parent_waits_for_both_example = parent_waits_for_both no_writers at_end.reach refl

-- The parent has forked its first child and the second fork fails.
abbrev one_forked :
    Progress.Run no_writers 2
      (record start { parent = ParentAt.returned; first = ChildAt.close_read })
one_forked = extended (extended begins (Step.forked_first refl refl)) (Step.fork_second_failed refl)

sync_ends_example :
    (2 ≤ 15)
    × (Over (record start { parent = ParentAt.returned; first = ChildAt.close_read })
        ⊎ GoesOn no_writers
            (record start { parent = ParentAt.returned; first = ChildAt.close_read }))
sync_ends_example = sync_ends no_writers one_forked
