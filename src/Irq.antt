-- ===== src/Irq.antt =====
-- Interrupt handling (microkernel/kernel/irq.c, include/kernel/irq.h). Each of the 16 lines has a first
-- handler and a list of further ones, front first, which are also in a hash table with chains of
-- `next` links; a walk along a chain runs on fuel. `none` is undefined behaviour: a read through NULL,
-- a line beyond the array, or one of the scheduler's.
pub mod Handling
mod Tests
use manrix.Base.{
  ℕ, zero, suc, ◌+◌, Bool, true, false, Option, none, some, List, [], ◌∷◌, ltb, leb, ◌==◌,
  if◌then◌else◌, has,
}
use manrix.Kernel.{Ptr, Thread, Kernel, Errno, eperm, einval, update_thread, test_mask, ◌>>=◌}
use manrix.Sched.{erase, superuser, wakeup, remove_thread, schedule}
use manrix.Threads.{hash_fn}

abbrev pub max_irq : ℕ
max_irq = 16

abbrev pub thread_blocked : ℕ
thread_blocked = 0x10

abbrev pub irq_wait : ℕ
irq_wait = 0x114

-- `struct irq`; `handler` is whether it is not NULL.
pub record Irq : Type 0 where
  pub id : ℕ
  pub flag : ℕ
  pub handler : Bool
  pub owner : Ptr
  pub next : Ptr

-- The kernel, the array `pc_irq` with its lists, the further handlers, the hash table, the counter of
-- their ids, and the flag IRQ_REQUEST of each thread's context.
pub record IrqState : Type 0 where
  pub kernel : Kernel
  pub pc_irq : ℕ → Irq
  pub list : ℕ → List Ptr
  pub irq : Ptr → Irq
  pub irqhash : ℕ → Ptr
  pub next_id : ℕ
  pub requested : Ptr → Bool

abbrev pub update_irq : Ptr → (Irq → Irq) → IrqState → IrqState
update_irq p f s = record s { irq = λ q. if p == q then f (s.irq p) else s.irq q }

abbrev pub set_line : ℕ → Irq → IrqState → IrqState
set_line n i s = record s { pc_irq = λ m. if n == m then i else s.pc_irq m }

abbrev pub set_list : ℕ → List Ptr → IrqState → IrqState
set_list n xs s = record s { list = λ m. if n == m then xs else s.list m }

unfoldable pub irqhash_insert : Ptr → IrqState → IrqState
irqhash_insert p s =
    let b = hash_fn (s.irq p).id in
    let s₁ = update_irq p (λ x. record x { next = s.irqhash b }) s in
    record s₁ { irqhash = λ i. if b == i then p else s.irqhash i }

-- The loop of `irqhash_remove` goes on unless the next handler is both the one that is sought and NULL,
-- so it ends in a read through NULL.
unfoldable pub irqhash_walk : ℕ → Ptr → Ptr → IrqState → Option IrqState
irqhash_walk zero p link s = none
irqhash_walk (suc n) p link s =
    let next = (s.irq link).next in
    let rest = irqhash_walk n p next s in
    if link == 0
    then none
    else if (if next == p then next == 0 else false)
    then some (update_irq link (λ x. record x { next = (s.irq p).next }) s)
    else rest

unfoldable pub irqhash_remove : ℕ → Ptr → IrqState → Option IrqState
unfolding irqhash_walk
irqhash_remove fuel p s =
    let b = hash_fn (s.irq p).id in
    if s.irqhash b == p
    then some (record s { irqhash = λ i. if b == i then (s.irq p).next else s.irqhash i })
    else irqhash_walk fuel p (s.irqhash b) s

pub data FoundIrq : Type 0 where
  found : Ptr → FoundIrq
  absent : FoundIrq
  fault : FoundIrq
  unfinished : FoundIrq

-- The loop of `find_by_irqid`.
unfoldable pub find_irq_from : ℕ → ℕ → Ptr → IrqState → FoundIrq
find_irq_from zero id link s = unfinished
find_irq_from (suc n) id link s =
    let x = s.irq link in
    let rest = find_irq_from n id x.next s in
    if link == 0
    then fault
    else if x.id == id
    then found link
    else if x.next == 0
    then absent
    else rest

unfoldable pub find_by_irqid : ℕ → ℕ → IrqState → FoundIrq
unfolding find_irq_from
find_by_irqid fuel id s =
    let p = s.irqhash (hash_fn id) in
    if p == 0
    then fault
    else if (s.irq p).id == id
    then found p
    else find_irq_from fuel id (s.irq p).next s

-- What `handle_IRQ` does for one handler.
unfoldable pub serve_irq : Irq → IrqState → Option IrqState
serve_irq i s =
    if i.handler
    then (let thr = i.owner in
        let s₁ = record s { requested = λ t. if thr == t then true else s.requested t } in
        if test_mask (s.kernel.thr thr).states thread_blocked
        then (elim (wakeup thr s.kernel) [ none ↦ none | some k ↦ some (record s₁ { kernel = k }) ])
        else some s₁)
    else some s

pub data Handled : Type 0 where
  served : IrqState → Handled
  undefined : Handled
  going_on : Handled

-- The loop of `handle_IRQ`, at the handler `here`, with the handlers `ahead` of it. Its condition reads the
-- list of the line, `items`, and not the place that was reached. Behind the last handler it takes the
-- head of the list, which is not at the start of a `struct irq`, for a handler.
unfoldable pub handle_loop : ℕ → List Ptr → Irq → List Ptr → IrqState → Handled
handle_loop zero items here ahead s = going_on
handle_loop (suc n) items here ahead s = elim (serve_irq here s) [
  | none ↦ undefined
  | some s₁ ↦ elim items [
    | [] ↦ served (record s₁ { kernel = schedule s₁.kernel })
    | x ∷ xs ↦ elim ahead [ [] ↦ undefined | p ∷ ps ↦ handle_loop n (x ∷ xs) (s₁.irq p) ps s₁ ]
  ]
]

unfoldable pub handle_irq : ℕ → ℕ → IrqState → Handled
unfolding handle_loop
handle_irq fuel irqno s =
    if ltb irqno max_irq
    then handle_loop fuel (s.list irqno) (s.pc_irq irqno) (s.list irqno) s
    else undefined

-- How a call ends: with a number, or refused.
pub data IrqResult : Type 0 where
  returned : ℕ → IrqState → IrqResult
  refused : Errno → IrqResult
  blocked : IrqState → IrqResult
  broken : IrqResult

-- `syscall_IRQ_request`, where `kmem_cache_alloc` gives `p` if a line has a handler already.
unfoldable pub irq_request : Ptr → ℕ → IrqState → IrqResult
unfolding irqhash_insert
irq_request p irqnum s =
    let me = s.kernel.current in
    let line = s.pc_irq irqnum in
    let taken : Irq = record line { id = irqnum; flag = 0; handler = true; owner = me } in
    let more : Irq = record { id = s.next_id; flag = 0; handler = true; owner = me; next = 0 } in
    if superuser s.kernel
    then if ltb irqnum max_irq
      then if line.handler
        then if p == 0
          then broken
          else returned s.next_id (
              irqhash_insert p
                (record (update_irq p (λ x. more) (set_list irqnum (p ∷ s.list irqnum) s)) {
                  next_id = s.next_id + 1;
                }))
        else returned irqnum (set_line irqnum taken s)
      else broken
    else refused eperm

-- The end of `syscall_IRQ_free`, for a further handler that stands in the list of line `n`. The lock
-- that is taken for it lies behind `pc_irq` and is left out.
unfoldable pub free_found : ℕ → ℕ → Ptr → IrqState → IrqResult
unfolding irqhash_remove
free_found fuel n p s =
    if has p (s.list n)
    then (elim (irqhash_remove fuel p (set_list n (erase p (s.list n)) s)) [
      | none ↦ broken
      | some s₁ ↦ returned 0 s₁
    ])
    else broken

unfoldable pub irq_free : ℕ → ℕ → ℕ → IrqState → IrqResult
unfolding free_found find_by_irqid
irq_free fuel n irqid s =
    if superuser s.kernel
    then if ltb irqid max_irq
      then returned 0
          (set_line irqid (record (s.pc_irq irqid) { handler = false; flag = 0; owner = 0 }) s)
      else (elim (find_by_irqid fuel irqid s) [
        | found p ↦ free_found fuel n p s
        | absent ↦ refused einval
        | fault ↦ broken
        | unfinished ↦ broken
      ])
    else refused eperm

-- `syscall_IRQ_wait`, up to the switch.
unfoldable pub irq_wait_call : IrqState → IrqResult
irq_wait_call s =
    let me = s.kernel.current in
    if superuser s.kernel
    then (elim (remove_thread me
        (update_thread me (λ t. record t { states = irq_wait }) s.kernel)) [
          | none ↦ broken
          | some k ↦ blocked (record s { kernel = schedule k })
        ])
    else refused eperm
