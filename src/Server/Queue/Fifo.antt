-- ===== src/Server/Queue/Fifo.antt =====
-- The work queue of src/server.c is a bounded first-in first-out queue.
use plumbr_c.Prelude.{
  subst, drop, ap₂, Bool, ℕ, zero, suc, ◌+◌, ◌-◌, ◌%◌, ◌≡◌, ◌≢◌, ◌<◌, ◌≤◌, refl, sym, ap, ◌∙◌, true,
  false, List, [], ◌∷◌, ◌++◌, ltb, ◌==◌, if◌then◌else◌, ltb→lt, Bool-cases, inl, inr, arith,
}
use plumbr_c.Server.Queue.{
  WorkQueue, queue_size, store, queue_push, queue_pop, Popped, waits, stopped, popped,
}

-- The `n` cells of the ring from `head` on.
unfoldable pub cells : (ℕ → ℕ) → ℕ → ℕ → List ℕ
cells fds head zero = []
cells fds head (suc n) = fds head ∷ cells fds ((head + 1) % queue_size) n

-- The descriptors that wait, the oldest first.
unfoldable pub contents : WorkQueue → List ℕ
unfolding cells
contents q = cells q.fds q.head q.count

-- The indices lie in the ring, and the tail stands `count` cells behind the head.
pub record IsQueue (q : WorkQueue) : Type 0 where
  pub head_lt : q.head < queue_size
  pub count_le : q.count ≤ queue_size
  pub tail_eq : q.tail ≡ (q.head + q.count) % queue_size

store_self : (fds : ℕ → ℕ) (i fd j : ℕ) → j ≡ i → store fds i fd j ≡ fd
store_self fds i fd j h = ground (arith, h)

store_ne : (fds : ℕ → ℕ) (i fd j : ℕ) → j ≢ i → store fds i fd j ≡ fds j
store_ne fds i fd j h = ground (arith, h)

-- The first `n` cells do not hold the one behind them.
cells-store :
    (fds : ℕ → ℕ) (head tail n fd : ℕ)
    → head < queue_size
    → n < queue_size
    → tail ≡ (head + n) % queue_size
    → cells (store fds tail fd) head (suc n) ≡ cells fds head n ++ fd ∷ []
unfolding cells
cells-store fds head tail zero fd h k e =
    ap (λ (x : ℕ). x ∷ []) (store_self fds tail fd head (omega arith))
cells-store fds head tail (suc n) fd h k e =
    let first : store fds tail fd head ≡ fds head =
      store_ne fds tail fd head (λ d. omega (arith, d)) in
    let rest =
      cells-store fds ((head + 1) % queue_size) tail n fd (omega arith) (omega arith)
        (omega arith) in
    ap₂ (λ (x : ℕ) (xs : List ℕ). x ∷ xs) first rest

add_one : (n : ℕ) → n + 1 ≡ suc n
add_one n = omega arith

pushed : WorkQueue → ℕ → WorkQueue
pushed q fd = record q {
  fds = store q.fds q.tail fd;
  tail = (q.tail + 1) % queue_size;
  count = q.count + 1;
}

push_room :
    (q : WorkQueue) (fd : ℕ) → ltb q.count queue_size ≡ true → queue_push q fd ≡ (pushed q fd, true)
unfolding queue_push pushed
push_room q fd h = rw h refl

push_full : (q : WorkQueue) (fd : ℕ) → ltb q.count queue_size ≡ false → queue_push q fd ≡ (q, false)
unfolding queue_push
push_full q fd h = rw h refl

pushed-IsQueue : (q : WorkQueue) (fd : ℕ) → q.count < queue_size → IsQueue q → IsQueue (pushed q fd)
unfolding pushed
pushed-IsQueue q fd lt h =
    let i = h.head_lt in
    let j = h.count_le in
    let k = h.tail_eq in record { head_lt = i; count_le = omega arith; tail_eq = omega arith }

contents-pushed :
    (q : WorkQueue) (fd : ℕ)
    → q.count < queue_size
    → IsQueue q
    → contents (pushed q fd) ≡ contents q ++ fd ∷ []
unfolding pushed contents
contents-pushed q fd lt h =
    ap (cells (store q.fds q.tail fd) q.head) (add_one q.count)
    ∙ cells-store q.fds q.head q.tail q.count fd h.head_lt lt h.tail_eq

-- `queue_push` keeps the queue well formed; below 4096 descriptors it takes the new one behind the
-- others, and otherwise it refuses it and changes nothing.
pub queue_push_lem :
    (q : WorkQueue) (fd : ℕ)
    → IsQueue q
    → IsQueue (queue_push q fd).0
      × ((queue_push q fd).1 ≡ ltb q.count queue_size)
      × (contents (queue_push q fd).0
          ≡ (if ltb q.count queue_size then contents q ++ fd ∷ [] else contents q))
queue_push_lem q fd h = elim (Bool-cases (ltb q.count queue_size)) [
  | inl room ↦
      let lt = ltb→lt q.count queue_size room in
      rw (push_room q fd room, room) (pushed-IsQueue q fd lt h, refl, contents-pushed q fd lt h)
  | inr full ↦ rw (push_full q fd full, full) (h, refl, refl)
]

-- The answer of `queue_pop` on the waiting descriptors.
unfoldable pub next_popped : Bool → List ℕ → Popped
next_popped running [] = if running then waits else stopped
next_popped running (fd ∷ rest) = popped fd

abbrev ring : (ℕ → ℕ) → ℕ → ℕ → ℕ → WorkQueue
ring fds head tail count = record { fds = fds; head = head; tail = tail; count = count }

suc_ne_zero : (n : ℕ) → (suc n == 0) ≡ false
suc_ne_zero n = ground arith

suc-sub_one : (n : ℕ) → suc n - 1 ≡ n
suc-sub_one n = omega arith

pop_some :
    (running : Bool) (fds : ℕ → ℕ) (head tail n : ℕ)
    → queue_pop running (ring fds head tail (suc n))
      ≡ (ring fds ((head + 1) % queue_size) tail n, popped (fds head))
unfolding queue_pop
pop_some running fds head tail n = rw (suc_ne_zero n, suc-sub_one n) refl

popped-IsQueue :
    (fds : ℕ → ℕ) (head tail n : ℕ)
    → IsQueue (ring fds head tail (suc n))
    → IsQueue (ring fds ((head + 1) % queue_size) tail n)
popped-IsQueue fds head tail n h =
    let i = h.head_lt in
    let j = h.count_le in
    let k = h.tail_eq in
    record { head_lt = omega arith; count_le = omega arith; tail_eq = omega arith }

pop_lem :
    (running : Bool) (fds : ℕ → ℕ) (head tail n : ℕ)
    → IsQueue (ring fds head tail n)
    → IsQueue (queue_pop running (ring fds head tail n)).0
      × ((queue_pop running (ring fds head tail n)).1
          ≡ next_popped running (contents (ring fds head tail n)))
      × (contents (queue_pop running (ring fds head tail n)).0
          ≡ drop 1 (contents (ring fds head tail n)))
unfolding queue_pop contents next_popped
pop_lem running fds head tail zero h = (h, refl, refl)
pop_lem running fds head tail (suc n) h =
    let e = pop_some running fds head tail n in
    (
      subst (λ (r : WorkQueue × Popped). IsQueue r.0) (sym e) (popped-IsQueue fds head tail n h),
      ap (λ (r : WorkQueue × Popped). r.1) e,
      ap (λ (r : WorkQueue × Popped). contents r.0) e,
    )

-- `queue_pop` keeps the queue well formed and hands out the descriptor that waits longest, if any;
-- otherwise it waits while the server runs and reports the end after that.
pub queue_pop_lem :
    (running : Bool) (q : WorkQueue)
    → IsQueue q
    → IsQueue (queue_pop running q).0
      × ((queue_pop running q).1 ≡ next_popped running (contents q))
      × (contents (queue_pop running q).0 ≡ drop 1 (contents q))
unfolding queue_pop contents next_popped
queue_pop_lem running q h = pop_lem running q.fds q.head q.tail q.count h
