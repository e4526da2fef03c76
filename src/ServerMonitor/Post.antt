-- ===== src/ServerMonitor/Post.antt =====
-- src/servermon.cpp: ServerMonitorControl, through which a PV feeds a subscription.
use pvxs.Prelude.{
  ℕ, ◌+◌, ◌-◌, Bool, true, false, ◌||◌, not, Option, none, some, List, [], ◌∷◌, ◌++◌, ltb, min, max,
  length, if◌then◌else◌,
}
use pvxs.ServerMonitor.State.{MonitorOp, Event, is_executing, maybe_reply}

-- What the queue asks of a Value: to take in a newer one (`assign`), whether it has a field that the
-- subscription selects (`testmask` with pvMask), and whether its type is the one announced.
pub record Updates (V : Type 0) : Type 0 where
  pub assign : V → V → V
  pub selected : V → Bool
  pub same_type : V → Bool

pub data Posted (V : Type 0) : Type 0 where
  type_changed : Posted V
  posted : MonitorOp V → List (Event V) → Bool → Posted V

-- `queue.back().assign(val)`; the source asserts that there is a back, and that it is no null.
unfoldable pub squash_back : {V : Type 0} → (V → V → V) → List (Option V) → V → List (Option V)
squash_back f [] v = []
squash_back f (none ∷ []) v = none ∷ []
squash_back f (some b ∷ []) v = some (f b v) ∷ []
squash_back f (b ∷ c ∷ q) v = b ∷ squash_back f (c ∷ q) v

abbrev pub is_null : {V : Type 0} → Option V → Bool
is_null none = true
is_null (some v) = false

module _ {V : Type 0} (u : Updates V) where
  abbrev pub type_fits : MonitorOp V → Option V → Bool
  type_fits m none = true
  type_fits m (some v) = not m.has_type || u.same_type v

  abbrev pub is_real : MonitorOp V → Option V → Bool
  is_real m none = m.first
  is_real m (some v) = m.first || u.selected v

  abbrev pub push : MonitorOp V → Option V → MonitorOp V
  push m val =
      let q = m.queue ++ (val ∷ []) in
      record m { finished = is_null val; queue = q; max_queue = max m.max_queue (length q) }

  abbrev pub squash : MonitorOp V → Option V → MonitorOp V
  squash m none = m
  squash m (some v) = record m { queue = squash_back u.assign m.queue v; n_squash = m.n_squash + 1 }

  -- The part under `real || !val`.
  unfoldable pub enqueue : MonitorOp V → Option V → Bool → Bool → MonitorOp V
  enqueue m val maybe force =
      if ltb (length m.queue) m.limit || force || is_null val
      then push m val
      else (if not maybe then squash m val else m)

  unfoldable pub do_post : MonitorOp V → Option V → Bool → Bool → Posted V
  unfolding enqueue maybe_reply
  do_post m val maybe force =
      if not (type_fits m val)
      then type_changed
      else (let m1 = record m { first = false } in
          if m.finished
          then posted m1 [] false
          else (if is_real m val || is_null val
              then (let r = maybe_reply (enqueue m1 val maybe force) in
                  posted r.0 r.1 (ltb (length r.0.queue) m.limit))
              else posted m1 [] (ltb (length m.queue) m.limit)))

pub record MonitorStat : Type 0 where
  pub running : Bool
  pub finished : Bool
  pub pipeline : Bool
  pub n_queue : ℕ
  pub max_queue : ℕ
  pub limit_queue : ℕ
  pub window : ℕ
  pub n_squash : ℕ

module _ {V : Type 0} where
  abbrev pub stats : MonitorOp V → Bool → MonitorStat × MonitorOp V
  stats m reset = (
    record {
      running = is_executing m.state;
      finished = m.finished;
      pipeline = m.pipeline;
      n_queue = length m.queue;
      max_queue = m.max_queue;
      limit_queue = m.limit;
      window = m.window;
      n_squash = m.n_squash;
    },
    if reset then record m { max_queue = 0; n_squash = 0 } else m,
  )

  -- `none` is the exception "low must be <= high".
  unfoldable pub set_watermarks : MonitorOp V → ℕ → ℕ → Option (MonitorOp V)
  set_watermarks m low high =
      if ltb high low
      then none
      else some (record m { low = min low (m.ack_at - 1); high = min high (m.ack_at - 1) })
