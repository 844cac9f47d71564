-- ===== src/Server/Queue.antt =====
-- The work queue of src/server.c: `queue_init`, `queue_push` and `queue_pop`, each between its
-- `pthread_mutex_lock` and `pthread_mutex_unlock`, so that one call is one step.
pub mod Fifo
use plumbr_c.Prelude.{
  ℕ, ◌+◌, ◌-◌, ◌%◌, Bool, true, false, not, Option, none, some, ltb, ◌==◌, if◌then◌else◌, ◌&&◌,
}

-- `QUEUE_SIZE`
abbrev pub queue_size : ℕ
queue_size = 4096

pub record WorkQueue : Type 0 where
  -- The descriptor at each index of the ring.
  pub fds : ℕ → ℕ
  pub head : ℕ
  pub tail : ℕ
  pub count : ℕ

-- `queue_init`, which leaves the ring as it is.
unfoldable pub queue_init : WorkQueue → WorkQueue
queue_init q = record q { head = 0; tail = 0; count = 0 }

-- `q->fds[i] = fd`
abbrev pub store : (ℕ → ℕ) → ℕ → ℕ → ℕ → ℕ
store fds i fd j = if j == i then fd else fds j

-- `queue_push`: false is the 503 answer on a full queue, after which the descriptor is closed.
unfoldable pub queue_push : WorkQueue → ℕ → WorkQueue × Bool
queue_push q fd =
    if ltb q.count queue_size
    then (
      record q {
        fds = store q.fds q.tail fd;
        tail = (q.tail + 1) % queue_size;
        count = q.count + 1;
      },
      true,
    )
    else (q, false)

-- What `queue_pop` does when it holds the lock: wait for a signal, return -1, or return a descriptor.
pub data Popped : Type 0 where
  waits : Popped
  stopped : Popped
  popped : ℕ → Popped

-- `queue_pop` from its test of the loop on, with `g_running` as it reads it.
unfoldable pub queue_pop : Bool → WorkQueue → WorkQueue × Popped
queue_pop running q =
    if q.count == 0
    then (q, if running then waits else stopped)
    else (record q { head = (q.head + 1) % queue_size; count = q.count - 1 }, popped (q.fds q.head))
