-- ===== src/Backend/Live/Stream.antt =====
-- The streams of backend/sih_api/app.py over the hub of live.py: publications, which run in a thread of their own,
-- and on the event loop the fan-outs that they schedule and the streams.

use ot_security.Common.{
  ℕ, zero, suc, ◌+◌, Bool, true, false, ◌||◌, Option, none, some, List, [], ◌∷◌, ◌++◌, map, length,
  ltb, ◌==◌, if◌then◌else◌,
}
use ot_security.Common.Dict.{Text}
use ot_security.Backend.Live.{LiveItem, LiveHub, push, backlog_after, asked}

-- A client: its queue, whether the hub still has it, and the state of its generator. Its client has asked for the
-- items after `after`.
pub record Stream : Type 0 where
  pub after : ℕ
  pub resync : Bool
  pub backlog : List LiveItem
  pub queue : List (Option LiveItem)
  pub is_member : Bool
  pub sent : List LiveItem
  pub told : Bool
  pub ended : Bool

-- The hub, all that it has numbered, the fan-outs that are scheduled, and the streams in the order of their start
pub record Live : Type 0 where
  pub hub : LiveHub
  pub published : List LiveItem
  pub scheduled : List LiveItem
  pub streams : List Stream

-- A step of one of the two threads; in `connect`, the messages that are published between its two halves
pub data Step : Type 0 where
  publish_step : (raw : Text) → Step
  fanout_step : Step
  connect_step : (last : Option Text) (raws : List Text) → Step
  advance_step disconnect_step : (stream : ℕ) → Step

-- `q.put_nowait(item)`, and the handler of QueueFull; a queue of size 0 has no bound.
unfoldable pub put : ℕ → LiveItem → Stream → Stream
put size i s =
    if s.is_member
    then (if (size == 0) || ltb (length s.queue) size
        then record s { queue = s.queue ++ (some i ∷ []) }
        else (elim s.queue [
          | [] ↦ record s { is_member = false }
          | _ ∷ q ↦ record s { is_member = false; queue = q ++ (none ∷ []) }
        ]))
    else s

unfoldable pub fanout : Live → Live
unfolding put
fanout w = elim w.scheduled [
  | [] ↦ w
  | i ∷ is ↦ record w { scheduled = is; streams = map (put w.hub.client_queue i) w.streams }
]

-- What `q.get()` answers: an item, or the call to resynchronize, which ends the stream
unfoldable pub receive : Stream → Option LiveItem → List (Option LiveItem) → Stream
receive s (some i) q = record s { queue = q; sent = s.sent ++ (i ∷ []) }
receive s none q = record s { queue = q; told = true; ended = true; is_member = false }

-- One item of the generator `events`
unfoldable pub advance : Stream → Stream
unfolding receive
advance s =
    if s.ended
    then s
    else if s.resync
    then record s { resync = false; told = true }
    else elim s.backlog [
      | i ∷ is ↦ record s { backlog = is; sent = s.sent ++ (i ∷ []) }
      | [] ↦ elim s.queue [ [] ↦ s | o ∷ q ↦ receive s o q ]
    ]

unfoldable pub disconnect : Stream → Stream
disconnect s = record s { ended = true; is_member = false }

-- A stream before its first item, with the answer of `backlog_after`
unfoldable pub opened : ℕ → List LiveItem × Bool → Stream
opened k o = record {
  after = k;
  resync = o.1;
  backlog = o.0;
  queue = [];
  is_member = true;
  sent = [];
  told = false;
  ended = false;
}

unfoldable pub at_stream : ℕ → (Stream → Stream) → List Stream → List Stream
at_stream n f [] = []
at_stream zero f (s ∷ ss) = f s ∷ ss
at_stream (suc n) f (s ∷ ss) = s ∷ at_stream n f ss

-- `stamp` parses a message and adds its time of arrival, `none` for one that is no such object.
module _ (stamp : Text → Option Text) (parse_int : Text → Option ℕ) where
  unfoldable pub publish : Text → Live → Live
  unfolding push
  publish raw w = elim (stamp raw) [
    | none ↦ w
    | some text ↦
        let item : LiveItem = record { seq = w.hub.seq + 1; raw = text } in
        record w {
          hub = record w.hub { seq = w.hub.seq + 1; ring = push w.hub.ring_size w.hub.ring item };
          published = w.published ++ (item ∷ []);
          scheduled = w.scheduled ++ (item ∷ []);
        }
  ]

  unfoldable pub publish_all : List Text → Live → Live
  unfolding publish
  publish_all [] w = w
  publish_all (raw ∷ raws) w = publish_all raws (publish raw w)

  -- `stream`: the backlog, whatever is published meanwhile, and the subscription
  unfoldable pub connect : Option Text → List Text → Live → Live
  unfolding publish_all backlog_after asked opened
  connect last raws w =
      let backlog = backlog_after parse_int w.hub last in
      let w' = publish_all raws w in
      record w' { streams = w'.streams ++ (opened (asked parse_int w.hub last) backlog ∷ []) }

  unfoldable pub step : Step → Live → Live
  unfolding publish fanout connect advance disconnect at_stream
  step (publish_step raw) w = publish raw w
  step fanout_step w = fanout w
  step (connect_step last raws) w = connect last raws w
  step (advance_step n) w = record w { streams = at_stream n advance w.streams }
  step (disconnect_step n) w = record w { streams = at_stream n disconnect w.streams }

  unfoldable pub run : List Step → Live → Live
  unfolding step
  run [] w = w
  run (s ∷ ss) w = run ss (step s w)
