-- ===== src/Terminal/Ring/Queue.antt =====
-- The ring buffers of kernel/tty.c and kernel/keyboard.c are bounded queues.
use mini_operate_system.Prelude.{
  ℕ, zero, suc, ◌+◌, ◌-◌, ◌≤◌, ◌<◌, ◌≡◌, refl, ap, ap₂, ◌∙◌, ◌⊎◌, inl, inr, arith, Option, none,
  some, ltb, ltb→lt, if◌then◌else◌, update, List, [], ◌∷◌, ◌++◌, length, Bool-cases,
}
use mini_operate_system.Terminal.Ring.{Ring, step, put, take}

-- The indices are in range, and the head is `count` places behind the tail, round the end.
pub record IsValid (size : ℕ) (r : Ring) : Type 0 where
  pub head_in : r.head < size
  pub tail_in : r.tail < size
  pub count_in : r.count ≤ size
  pub apart : (r.tail + r.count ≡ r.head) ⊎ (r.tail + r.count ≡ r.head + size)

-- What a client does with a ring, and what it sees.
pub data Op : Type 0 where
  insert : ℕ → Op
  remove : Op

unfoldable pub run : ℕ → Ring → List Op → List (Option ℕ)
run size r [] = []
run size r (insert x ∷ ops) = run size (put size r x) ops
run size r (remove ∷ ops) = elim (take size r) [
  | none ↦ none ∷ run size r ops
  | some (x, r') ↦ some x ∷ run size r' ops
]

-- The specification: a queue of at most `size` items, oldest first, which drops what comes when it
-- is full.
unfoldable pub run_queue : ℕ → List ℕ → List Op → List (Option ℕ)
run_queue size q [] = []
run_queue size q (insert x ∷ ops) =
    run_queue size (if ltb (length q) size then q ++ (x ∷ []) else q) ops
run_queue size [] (remove ∷ ops) = none ∷ run_queue size [] ops
run_queue size (x ∷ q) (remove ∷ ops) = some x ∷ run_queue size q ops

-- The `n` items from index `t` on.
abbrev pub window : ℕ → (ℕ → ℕ) → ℕ → ℕ → List ℕ
window size buf t zero = []
window size buf t (suc n) = buf t ∷ window size buf (step size t) n

abbrev pub contents : ℕ → Ring → List ℕ
contents size r = window size r.buf r.tail r.count

length-window : (size : ℕ) (buf : ℕ → ℕ) (t n : ℕ) → length (window size buf t n) ≡ n
length-window size buf t zero = refl
length-window size buf t (suc n) = ap suc (length-window size buf (step size t) n)

pub put-IsValid : (size : ℕ) {r : Ring} (x : ℕ) → IsValid size r → IsValid size (put size r x)
unfolding put
put-IsValid size {r} x v = ground arith

pub take-IsValid :
    (size : ℕ) {r r' : Ring} {x : ℕ} → IsValid size r → take size r ≡ some (x, r') → IsValid size r'
unfolding take
take-IsValid size {r} v e = ground arith

-- Writing at the index behind a window extends it.
window-update :
    (size : ℕ) (buf : ℕ → ℕ) (t n h x : ℕ)
    → t < size
    → h < size
    → n < size
    → (t + n ≡ h) ⊎ (t + n ≡ h + size)
    → window size (update buf h x) t (suc n) ≡ window size buf t n ++ (x ∷ [])
window-update size buf t zero h x lt lt' small e = ap (λ (a : ℕ). a ∷ []) (ground arith)
window-update size buf t (suc n) h x lt lt' small e =
    ap₂ ◌∷◌ (ground arith)
      (window-update size buf (step size t) n h x (ground arith) lt' (omega arith) (ground arith))

contents-put :
    (size : ℕ) (r : Ring) (x : ℕ)
    → IsValid size r
    → contents size (put size r x) ≡ (
        if ltb (length (contents size r)) size
        then contents size r ++ (x ∷ [])
        else contents size r)
unfolding put
contents-put size r x v =
    rw (length-window size r.buf r.tail r.count) (elim (Bool-cases (ltb r.count size)) [
      | inr full ↦ rw full
      | inl room ↦
          let lt = ltb→lt r.count size room in
          let e : r.count + 1 ≡ suc r.count = omega arith in
          rw (room, e)
            (window-update size r.buf r.tail r.count r.head x v.tail_in v.head_in lt v.apart)
    ])

-- A take gives the oldest item and leaves the others, or finds nothing.
Taken : ℕ → List ℕ → Option (ℕ × Ring) → Type 0
Taken size [] o = o ≡ none
Taken size (x ∷ q) o = (r' : Ring) × (o ≡ some (x, r')) × (contents size r' ≡ q) × IsValid size r'

take-Taken : (size : ℕ) (r : Ring) → IsValid size r → Taken size (contents size r) (take size r)
take-Taken size r v = go r.count refl
  where
    go : (n : ℕ) → r.count ≡ n → Taken size (window size r.buf r.tail n) (take size r)
    go zero e = unfold Taken take in ground arith
    go (suc n) e =
        let r' : Ring = record r { tail = step size r.tail; count = r.count - 1 } in
        let left : r.count - 1 ≡ n = omega arith in
        let w : IsValid size r' = ground arith in
        unfold Taken take in (r', ground arith, rw left, w)

run_remove :
    (size : ℕ) (r : Ring) (ops : List Op) (q : List ℕ)
    → IsValid size r
    → Taken size q (take size r)
    → contents size r ≡ q
    → ((r' : Ring) → IsValid size r' → run size r' ops ≡ run_queue size (contents size r') ops)
    → run size r (remove ∷ ops) ≡ run_queue size q (remove ∷ ops)
unfolding run run_queue Taken
run_remove size r ops [] v none_left e ih =
    rw (none_left, run)
      (ap (λ (l : List (Option ℕ)). none ∷ l)
        (ih r v ∙ ap (λ (q : List ℕ). run_queue size q ops) e))
run_remove size r ops (x ∷ q) v (r', got, rest, w) e ih =
    rw (got, run)
      (ap (λ (l : List (Option ℕ)). some x ∷ l)
        (ih r' w ∙ ap (λ (q : List ℕ). run_queue size q ops) rest))

-- Whatever sequence of keys comes in and is read, a valid ring buffer gives the answers of a
-- bounded queue that holds its contents: first in, first out, and dropping what comes when full.
pub run-queue :
    (size : ℕ) (r : Ring) (ops : List Op)
    → IsValid size r
    → run size r ops ≡ run_queue size (contents size r) ops
unfolding run run_queue
run-queue size r [] v = refl
run-queue size r (insert x ∷ ops) v =
    run-queue size (put size r x) ops (put-IsValid size x v)
    ∙ ap (λ (q : List ℕ). run_queue size q ops) (contents-put size r x v)
run-queue size r (remove ∷ ops) v =
    run_remove size r ops (contents size r) v (take-Taken size r v) refl
      (λ r' w. run-queue size r' ops w)
