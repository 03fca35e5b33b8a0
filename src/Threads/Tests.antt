-- ===== src/Threads/Tests.antt =====
-- Runs of the theorems on the table of threads.
use manrix.Base.{◌≡◌, refl, ◌≢◌, true, [], arith, ◌==◌, if◌then◌else◌}
use manrix.Kernel.{Ptr, Kernel}
use manrix.Sched.{sched_init}
use manrix.Sched.Queues.{is_ready}
use manrix.Sched.Tests.{asleep, both}
use manrix.Threads.{hash_fn, thash_insert, found, find_by_tid, find_in_chain}
use manrix.Threads.Laws.{is_known, IsTable, thash_insert-IsTable}

abbrev bare : Kernel
bare = record asleep { thash = λ b. [] }

bare-IsTable : IsTable bare
bare-IsTable = record { hashed = λ b t i. cc; once = λ b. tt; unique = λ t u i j e. cc }

abbrev one : Kernel
one = thash_insert 1 bare

one_step : IsTable one × ((u : Ptr) → is_known u one ≡ (if 1 == u then true else is_known u bare))
one_step = thash_insert-IsTable 1 bare bare-IsTable refl (λ u i. cc)

one_known : is_known 1 one ≡ true
one_known = one_step.1 1

pub find_two : find_by_tid 501 both ≡ found 2
unfolding find_by_tid find_in_chain hash_fn sched_init
find_two = refl

both_ready : is_ready 2 both ≡ true
unfolding sched_init
both_ready = refl

both_caller : is_ready both.current both ≡ true
unfolding sched_init
both_caller = refl

two_other : 2 ≢ both.current
unfolding sched_init
two_other = ground arith
