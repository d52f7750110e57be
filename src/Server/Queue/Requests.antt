-- ===== src/Server/Queue/Requests.antt =====
-- server/split.c: requests for a split, and repeated ones.
use skyefs.Prelude.{
  ℕ, ◌≡◌, ◌⊎◌, refl, arith, true, false, List, [], ◌∷◌, ◌++◌, Bool-cases, inl, inr, ok, fault,
  blocked, ap, ◌∙◌, if◌then◌else◌,
}
use skyefs.Rpc.{ObjectRef}
use skyefs.Server.Queue.{SplitTask, SplitQueue, is_last, perform_split}

is_last-append :
    (parent : ObjectRef) (pindex : ℕ) (tasks : List SplitTask)
    → is_last parent pindex (tasks ++ record { parent = parent; pindex = pindex } ∷ []) ≡ true
unfolding is_last
is_last-append parent pindex [] = ground arith
is_last-append parent pindex (task ∷ []) = ground arith
is_last-append parent pindex (task ∷ next ∷ tasks) = is_last-append parent pindex (next ∷ tasks)

appended : ObjectRef → ℕ → SplitQueue → SplitQueue
appended parent pindex queue = record {
  tasks = queue.tasks ++ record { parent = parent; pindex = pindex } ∷ [];
  locked = false;
  signalled = true;
}

opened :
    (parent : ObjectRef) (pindex : ℕ) (queue : SplitQueue)
    → queue.locked ≡ false
    → perform_split true parent pindex queue
      ≡ (if is_last parent pindex queue.tasks then ok queue else ok (appended parent pindex queue))
unfolding perform_split appended
opened parent pindex queue free =
    ap
      (λ b.
        if b
        then fault blocked
        else if is_last parent pindex queue.tasks
        then ok queue
        else ok (appended parent pindex queue))
      free

-- The last task is for this partition; the file system of the directory is not looked at.
pub record IsRequested (parent : ObjectRef) (pindex : ℕ) (tasks : List SplitTask) : Type 0 where
  pub before : List SplitTask
  pub last : SplitTask
  pub split : tasks ≡ before ++ last ∷ []
  pub handle : last.parent.handle ≡ parent.handle
  pub index : last.pindex ≡ pindex

is_last-IsRequested :
    (parent : ObjectRef) (pindex : ℕ) (tasks : List SplitTask)
    → is_last parent pindex tasks ≡ true
    → IsRequested parent pindex tasks
unfolding is_last
is_last-IsRequested parent pindex [] h = absurd cc
is_last-IsRequested parent pindex (task ∷ []) h = record {
  before = [];
  last = task;
  split = refl;
  handle = ground (arith, h);
  index = ground (arith, h);
}
is_last-IsRequested parent pindex (task ∷ next ∷ tasks) h =
    let r = is_last-IsRequested parent pindex (next ∷ tasks) h in
    record {
      before = task ∷ r.before;
      last = r.last;
      split = ap (◌∷◌ task) r.split;
      handle = r.handle;
      index = r.index;
    }

-- If queue_mutex is free and malloc succeeds, perform_split returns, with the mutex free; the
-- last task in the queue then has the handle of the directory and the index that were given, and
-- either the queue is as it was, or the task was appended and the thread signalled; the same
-- request again leaves the queue as it is.
pub perform_split_twice :
    (parent : ObjectRef) (pindex : ℕ) (queue : SplitQueue)
    → queue.locked ≡ false
    → (after : SplitQueue) × (perform_split true parent pindex queue ≡ ok after)
      × IsRequested parent pindex after.tasks
      × ((after ≡ queue)
          ⊎ ((after.tasks ≡ queue.tasks ++ record { parent = parent; pindex = pindex } ∷ [])
              × (after.signalled ≡ true)))
      × (after.locked ≡ false)
      × (perform_split true parent pindex after ≡ ok after)
unfolding perform_split appended
perform_split_twice parent pindex queue free =
    elim (Bool-cases (is_last parent pindex queue.tasks)) [
      | inl there ↦ (
        queue,
        opened parent pindex queue free ∙ rw there refl,
        is_last-IsRequested parent pindex queue.tasks there,
        inl refl,
        free,
        opened parent pindex queue free ∙ rw there refl,
      )
      | inr new ↦
          let at_end = is_last-append parent pindex queue.tasks in
          (
            appended parent pindex queue,
            opened parent pindex queue free ∙ rw new refl,
            is_last-IsRequested parent pindex (appended parent pindex queue).tasks at_end,
            inr (refl, refl),
            refl,
            rw at_end refl,
          )
    ]

-- The mutex is free again.
pub perform_split-unlocked :
    (parent : ObjectRef) (pindex : ℕ) (queue : SplitQueue)
    → queue.locked ≡ false
    → (after : SplitQueue) × (perform_split true parent pindex queue ≡ ok after)
      × (after.locked ≡ false)
unfolding appended
perform_split-unlocked parent pindex queue free =
    elim (Bool-cases (is_last parent pindex queue.tasks)) [
      | inl there ↦ (queue, opened parent pindex queue free ∙ rw there refl, free)
      | inr new ↦
          (appended parent pindex queue, opened parent pindex queue free ∙ rw new refl, refl)
    ]
