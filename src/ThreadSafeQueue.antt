-- ===== src/ThreadSafeQueue.antt =====
-- The queue that src/EventManager/CmdProcessor.h takes from another repository, as an interface: its
-- operations, the items that it holds, and the behaviour that CmdProcessor relies on.
use frc.Prelude.{Bool, true, false, List, [], ◌∷◌, ◌++◌, ◌≡◌, refl}

-- A call of Dequeue takes an item, waits for one, or throws ThreadInterruptedException.
pub data Dequeue (A Q : Type 0) : Type 0 where
  item : A → Q → Dequeue A Q
  waits : Dequeue A Q
  interrupted : Dequeue A Q

-- What a call may do: an interrupt comes first, then the oldest item, and an empty queue waits.
pub data Dequeues {A Q : Type 0} (items : Q → List A) (is_interrupted : Q → Bool) (q : Q)
    : Dequeue A Q → Type 0 where
  stop : is_interrupted q ≡ true → Dequeues items is_interrupted q interrupted
  take :
      {a : A} {r : Q}
      → is_interrupted q ≡ false
      → items q ≡ a ∷ items r
      → is_interrupted r ≡ false
      → Dequeues items is_interrupted q (item a r)
  wait : is_interrupted q ≡ false → items q ≡ [] → Dequeues items is_interrupted q waits

pub record ThreadSafeQueue (A : Type 0) : Type 1 where
  pub Q : Type 0
  pub items : Q → List A
  pub is_interrupted : Q → Bool
  pub empty : Q
  pub enqueue : A → Bool → Q → Q
  pub interrupt : Q → Q
  pub dequeue : Q → Dequeue A Q
  pub items-empty : items empty ≡ []
  pub is_interrupted-empty : is_interrupted empty ≡ false
  pub items-enqueue_back : (a : A) (q : Q) → items (enqueue a false q) ≡ items q ++ a ∷ []
  pub items-enqueue_front : (a : A) (q : Q) → items (enqueue a true q) ≡ a ∷ items q
  pub is_interrupted-enqueue :
      (a : A) (front : Bool) (q : Q) → is_interrupted (enqueue a front q) ≡ is_interrupted q
  pub is_interrupted-interrupt : (q : Q) → is_interrupted (interrupt q) ≡ true
  pub dequeue_lem : (q : Q) → Dequeues items is_interrupted q (dequeue q)

-- The interface can be met: a list with a flag.
module _ (A : Type 0) where
  abbrev pub ListQueue : Type 0
  ListQueue = List A × Bool

  abbrev pub put : A → Bool → ListQueue → ListQueue
  put a true (xs, flag) = (a ∷ xs, flag)
  put a false (xs, flag) = (xs ++ a ∷ [], flag)

  abbrev pub get : ListQueue → Dequeue A ListQueue
  get (xs, true) = interrupted
  get ([], false) = waits
  get (a ∷ xs, false) = item a (xs, false)

  pub get_lem : (q : ListQueue) → Dequeues {A = A} {Q = ListQueue} (λ r. r.0) (λ r. r.1) q (get q)
  get_lem (xs, true) = stop refl
  get_lem ([], false) = wait refl refl
  get_lem (a ∷ xs, false) = take refl refl refl

  pub put_flag : (a : A) (front : Bool) (q : ListQueue) → (put a front q).1 ≡ q.1
  put_flag a true (xs, flag) = refl
  put_flag a false (xs, flag) = refl

  abbrev pub list_queue : ThreadSafeQueue A
  list_queue = record {
    Q = ListQueue;
    items = λ q. q.0;
    is_interrupted = λ q. q.1;
    empty = ([], false);
    enqueue = put;
    interrupt = λ q. (q.0, true);
    dequeue = get;
    items-empty = refl;
    is_interrupted-empty = refl;
    items-enqueue_back = λ a q. refl;
    items-enqueue_front = λ a q. refl;
    is_interrupted-enqueue = put_flag;
    is_interrupted-interrupt = λ q. refl;
    dequeue_lem = get_lem;
  }
