-- ===== src/DList.antt =====
-- The intrusive doubly linked lists of the kernel (microkernel/include/kernel/list.h). A list head
-- and the `member` of each item are links at an address; an item is named by the address that the
-- pointers to it hold. The macros are functions on the store of links.
pub mod Chain
pub mod Ring
pub mod Queue
mod Tests
use manrix.Base.{ℕ, Bool, Option, none, some, ◌==◌, if◌then◌else◌}

abbrev pub Ptr : Type 0
Ptr = ℕ

-- `struct linked_list`, at every address.
pub record Links : Type 0 where
  pub next : Ptr → Ptr
  pub prev : Ptr → Ptr

abbrev pub update : (Ptr → Ptr) → Ptr → Ptr → Ptr → Ptr
update f p v a = if p == a then v else f a

-- `p->next = v` and `p->prev = v`.
abbrev pub set_next : Ptr → Ptr → Links → Links
set_next p v l = record l { next = update l.next p v }

abbrev pub set_prev : Ptr → Ptr → Links → Links
set_prev p v l = record l { prev = update l.prev p v }

unfoldable pub list_init : Ptr → Links → Links
list_init head l = set_prev head head (set_next head head l)

unfoldable pub list_isempty : Ptr → Links → Bool
list_isempty head l = l.next head == head

unfoldable pub last_entry : Ptr → Links → Ptr
last_entry head l = l.prev head

unfoldable pub first_entry : Ptr → Links → Ptr
first_entry head l = l.next head

-- Adds at the front. The writes stand in the source's order.
unfoldable pub list_enqueue : Ptr → Ptr → Links → Links
list_enqueue head pointer l =
    let nxt = l.next head in
    let l₁ = set_next pointer nxt (set_prev pointer head (set_next head pointer l)) in
    if nxt == head then set_prev head pointer l₁ else set_prev nxt pointer l₁

-- Takes from the back. `none`: the list is empty, and the macro would read the head as an item.
unfoldable pub list_dequeue : Ptr → Links → Option (Ptr × Links)
list_dequeue head l =
    let pointer = l.prev head in
    if pointer == head
    then none
    else (let nxt = l.prev pointer in
        let l₁ = set_prev head nxt l in
        some (pointer, if nxt == head then set_next head head l₁ else set_next nxt head l₁))

-- The stack: `list_add` is the same text as `list_enqueue`.
unfoldable pub list_add : Ptr → Ptr → Links → Links
list_add head pointer l =
    let nxt = l.next head in
    let l₁ = set_next pointer nxt (set_prev pointer head (set_next head pointer l)) in
    if nxt == head then set_prev head pointer l₁ else set_prev nxt pointer l₁

-- Takes from the front.
unfoldable pub list_remove : Ptr → Links → Option (Ptr × Links)
list_remove head l =
    let pointer = l.next head in
    if pointer == head
    then none
    else (let nxt = l.next pointer in
        let l₁ = set_next head nxt l in
        some (pointer, if nxt == head then set_prev head head l₁ else set_prev nxt head l₁))

-- Removes an item from the middle.
unfoldable pub list_del : Ptr → Ptr → Links → Links
list_del head item l =
    let prev = l.prev item in
    let next = l.next item in
    let l₁ = if prev == head then set_next head next l else set_next prev next l in
    if next == head then set_prev head prev l₁ else set_prev next prev l₁

-- Adds an item behind `prv`. The successor's `prev` is not written.
unfoldable pub list_add_next : Ptr → Ptr → Links → Links
list_add_next prv item l =
    let nxt = l.next prv in set_next item nxt (set_prev item prv (set_next prv item l))
