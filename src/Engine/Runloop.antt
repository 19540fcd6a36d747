-- ===== src/Engine/Runloop.antt =====
-- The engine's loop: `run` of simulation/src/engine/runloop.rs.
-- A turn of the loop is given what it sees of the outside: the messages that have arrived in the
-- channel, the shutdown flag, the clock behind its reads, and whether the UDP queue takes the tick.
-- The timing histograms are left out: nothing reads them before the end.
pub mod Reads
pub mod Ticks
pub mod Priced
use arb_contest.Prelude.{
  ℕ, zero, suc, ◌+◌, ◌-◌, ◌*◌, ◌^◌, ◌≡◌, Bool, true, false, not, Option, none, some, List, [], ◌∷◌,
  ◌++◌, ltb, ◌==◌, if◌then◌else◌, length, get_elem?, set, replicate, add_u64, ℤ,
}
use arb_contest.Protocol.Market.{Fee, Token, TokenPair}
use arb_contest.Protocol.Feed.{PriceUpdate, FeedTick}
use arb_contest.Protocol.Submission.{RouteSubmission, SubmissionResponse}
use arb_contest.Engine.Evaluate.{Rules, World, Evaluated, evaluate, usd_token_id}
use arb_contest.Net.Tcp.{ContestantSubmission}

abbrev pub late_threshold_ns : ℕ
late_threshold_ns = 10_000

abbrev pub submission_drain_limit : ℕ
submission_drain_limit = 64

abbrev pub usize_max : ℕ
usize_max = 2 ^ 64 - 1

-- `for (idx, p) in pairs.iter().enumerate()`: each USD pair is noted at its base token. `none` is
-- the panic of a base token that is not in the market.
unfoldable pub note_usd_pairs : (idx : ℕ) → List TokenPair → List ℕ → Option (List ℕ)
note_usd_pairs idx [] noted = some noted
note_usd_pairs idx (p ∷ ps) noted =
    if p.quote == usd_token_id
    then elim (get_elem? noted p.base) [
      | none ↦ none
      | some _ ↦ note_usd_pairs (suc idx) ps (set noted p.base idx)
    ]
    else note_usd_pairs (suc idx) ps noted

unfoldable pub usd_pair_of_token : List Token → List TokenPair → Option (List ℕ)
usd_pair_of_token tokens pairs = note_usd_pairs 0 pairs (replicate (length tokens) usize_max)

-- What the loop counts and what it leaves in its channels.
pub record Tally : Type 0 where
  pub submissions_received : ℕ
  pub submissions_ok : ℕ
  pub submissions_fail : ℕ
  pub responses_dropped : ℕ
  pub responses : List SubmissionResponse

pub record Loop : Type 0 where
  pub world : World
  pub queue : List ContestantSubmission
  pub tally : Tally
  pub seq : ℕ
  pub idx : ℕ
  pub target : ℕ
  pub overshoot_ns : ℕ
  pub late_ticks : ℕ
  pub dispatched : ℕ
  pub udp_dispatch_errors : ℕ
  pub sent : List PriceUpdate

pub record Turn : Type 0 where
  pub shutdown : Bool
  pub arrived : List ContestantSubmission
  pub after_read : ℕ
  pub udp_taken : Bool

pub data Iter : Type 0 where
  goes_on : Loop → Iter
  breaks : Loop → Iter
  panics : Iter

-- The counters of one evaluated submission, and its response.
unfoldable pub tally_up : ContestantSubmission → (ok : ℕ) → (balance : ℤ) → Tally → Tally
tally_up msg ok balance t = record t {
  submissions_received = add_u64 t.submissions_received 1;
  submissions_ok = if ok == 1 then add_u64 t.submissions_ok 1 else t.submissions_ok;
  submissions_fail = if ok == 1 then t.submissions_fail else add_u64 t.submissions_fail 1;
  responses_dropped = if msg.awaited then t.responses_dropped else add_u64 t.responses_dropped 1;
  responses =
      if msg.awaited
      then t.responses
        ++ (record { sub_id = (msg.submission).sub_id; ok = ok; balance = balance } ∷ [])
      else t.responses;
}

module _ (rules : Rules) (feed : List FeedTick) where
  unfoldable pub on_message : ContestantSubmission → World → Tally → Option (World × Tally)
  on_message msg w t = elim (evaluate rules w msg.contestant_id msg.submission) [
    | none ↦ none
    | some r ↦ some (r.world, tally_up msg r.ok r.balance t)
  ]

  -- `for _ in 0..SUBMISSION_DRAIN_LIMIT`, until the channel is empty.
  unfoldable pub read_submissions :
      (limit : ℕ)
      → List ContestantSubmission
      → World
      → Tally
      → Option (List ContestantSubmission × World × Tally)
  read_submissions zero queue w t = some (queue, w, t)
  read_submissions (suc limit) [] w t = some ([], w, t)
  read_submissions (suc limit) (msg ∷ queue) w t = elim (on_message msg w t) [
    | none ↦ none
    | some (w', t') ↦ read_submissions limit queue w' t'
  ]

  -- `pairs[pair_idx].price = ..; pairs[pair_idx].volume = ..`
  unfoldable pub set_quote : PriceUpdate → List TokenPair → Option (List TokenPair)
  set_quote update pairs = elim (get_elem? pairs update.token_pair_id) [
    | none ↦ none
    | some p ↦
        some (
          set pairs update.token_pair_id
            (record p { price = update.price; volume = update.volume }))
  ]

  -- `target += Duration::from_micros(feed[idx].delay_us)`, while there is a tick.
  abbrev pub next_target : (idx target : ℕ) → ℕ
  next_target idx target = elim (get_elem? feed idx) [
    | none ↦ target
    | some tick ↦ target + tick.delay_us * 1000
  ]

  -- The variables behind a tick, with the new quotes.
  unfoldable pub after_tick :
      (after_read : ℕ) (udp_taken : Bool) → FeedTick → List TokenPair → Loop → Loop
  after_tick after_read udp_taken tick pairs l =
      let overshoot = after_read - l.target in
      let tick_update = tick.update in
      let update = record tick_update { seq = l.seq } in
      record l {
        world = record l.world { pairs = pairs };
        seq = add_u64 l.seq 1;
        idx = suc l.idx;
        target = next_target (suc l.idx) l.target;
        overshoot_ns = overshoot;
        late_ticks =
            if ltb late_threshold_ns overshoot then add_u64 l.late_ticks 1 else l.late_ticks;
        dispatched = if udp_taken then add_u64 l.dispatched 1 else l.dispatched;
        udp_dispatch_errors =
            if udp_taken then l.udp_dispatch_errors else add_u64 l.udp_dispatch_errors 1;
        sent = if udp_taken then l.sent ++ (update ∷ []) else l.sent;
      }

  -- Step 3 of a turn: the tick goes to the UDP thread and into the local state.
  unfoldable pub dispatch : (after_read : ℕ) → (udp_taken : Bool) → FeedTick → Loop → Iter
  dispatch after_read udp_taken tick l = elim (set_quote tick.update l.world.pairs) [
    | none ↦ panics
    | some pairs ↦ goes_on (after_tick after_read udp_taken tick pairs l)
  ]

  -- Steps 2 and 3: the end of the feed, a tick that is not due, or a tick.
  unfoldable pub after_reads : Turn → Loop → Iter
  after_reads turn l = elim (get_elem? feed l.idx) [
    | none ↦ breaks l
    | some tick ↦
        if ltb turn.after_read l.target
        then goes_on l
        else dispatch turn.after_read turn.udp_taken tick l
  ]

  -- One turn of the loop.
  unfoldable pub turn_of : Turn → Loop → Iter
  turn_of turn l =
      if turn.shutdown
      then breaks l
      else elim (read_submissions submission_drain_limit (l.queue ++ turn.arrived) l.world
          l.tally) [
            | none ↦ panics
            | some (queue, w, t) ↦
                after_reads turn (record l { queue = queue; world = w; tally = t })
          ]

  unfoldable pub run : List Turn → Loop → Iter
  run [] l = goes_on l
  run (turn ∷ turns) l = elim (turn_of turn l) [
    | goes_on l' ↦ run turns l'
    | breaks l' ↦ breaks l'
    | panics ↦ panics
  ]

  -- The variables before the loop.
  unfoldable pub start : World → (now : ℕ) → Loop
  start w now = record {
    world = w;
    queue = [];
    tally = record {
      submissions_received = 0;
      submissions_ok = 0;
      submissions_fail = 0;
      responses_dropped = 0;
      responses = [];
    };
    seq = 0;
    idx = 0;
    target = next_target 0 now;
    overshoot_ns = 0;
    late_ticks = 0;
    dispatched = 0;
    udp_dispatch_errors = 0;
    sent = [];
  }
