-- ===== src/Tests/Commits.antt =====
-- The commit queue, with one commit running and six waiting.
use Prim.Native.String.{String}
use nf_nms.Common.{ℕ, ◌-◌, List, [], ◌∷◌, ◌≡◌, refl, arith, Bool, true, length, drop}
use nf_nms.Engined.Commit
use nf_nms.Engined.Commit.{
  Task, TaskStatus, pending, running, done, CommitService, Parsed, Input, step, start_first,
  reload_ended,
}
use nf_nms.Engined.Commit.Queue.{IsSettled, step-IsSettled}
use nf_nms.Engined.Commit.Order.{reload_drops_waiting}

abbrev waiting : ℕ → Task
waiting n = record { id = n; payload = 91 ∷ 93 ∷ []; status = pending }

abbrev first : Task
first = record { id = 1; payload = 91 ∷ 93 ∷ []; status = running }

abbrev six : List Task
six = waiting 2 ∷ waiting 3 ∷ waiting 4 ∷ waiting 5 ∷ waiting 6 ∷ waiting 7 ∷ []

abbrev busy : CommitService
busy = record { queue = first ∷ six; next_id = 8 }

busy-IsSettled : IsSettled busy
busy-IsSettled = record { one_running = omega arith; none_stranded = λ z. absurd (omega arith) }

-- A store that holds the number of the domains changed, and takes every tree.
abbrev unread : List ℕ → Parsed ℕ
unread bytes = Parsed.array []

abbrev count_up : ℕ → String → String → ℕ → ℕ
count_up root scope domain patch = patch

abbrev taken : ℕ → Bool
taken root = true

step-IsSettled_example : IsSettled (step unread count_up taken busy Commit.Input.reload_complete).0
step-IsSettled_example =
    step-IsSettled unread count_up taken Commit.Input.reload_complete busy-IsSettled

reload_drops_waiting_example :
    (reload_ended done busy).0.queue ≡ (start_first (drop (length six - 5) six)).1
reload_drops_waiting_example =
    reload_drops_waiting busy first six refl refl (refl, (refl, (refl, (refl, (refl, (refl, tt))))))
