-- ===== src/Backend/Live/Served.antt =====
-- The histories of the hub of backend/sih_api/live.py with its streams.
use ot_security.Common.{
  ℕ, zero, suc, ◌<◌, ◌≡◌, refl, sym, subst, Bool, Option, List, [], ◌∷◌, ◌++◌, map, inl, inr, All,
}
use ot_security.Common.Members.{All_map}
use ot_security.Common.Dict.{Text}
use ot_security.Backend.Live.{LiveItem, backlog_after, asked}
use ot_security.Backend.Live.Ring.{IsRing, Reaches, backlog_after-Reaches}
use ot_security.Backend.Live.Stream.{
  Stream, Live, Step, publish_step, fanout_step, connect_step, advance_step, disconnect_step, put,
  fanout, advance, disconnect, opened, at_stream, publish, publish_all, connect, step, run,
}
use ot_security.Backend.Live.Kept.{Warned, Due, Kept, put-Kept, disconnect-Kept, advance-Kept}
use ot_security.Backend.Live.Published.{Keeps, publish-Keeps, publish_all-Keeps}

record IsLive (w : Live) : Type 0 where
  ring : IsRing w.published w.hub
  streams : All (Kept w.published w.scheduled) w.streams

-- The hub before its first message
abbrev pub started : Text → ℕ → ℕ → Live
started nonce ring_size client_queue = record {
  hub = record {
    nonce = nonce;
    ring_size = ring_size;
    client_queue = client_queue;
    ring = [];
    seq = 0;
  };
  published = [];
  scheduled = [];
  streams = [];
}

started-IsLive :
    (nonce : Text) (ring_size client_queue : ℕ)
    → 0 < ring_size
    → IsLive (started nonce ring_size client_queue)
started-IsLive nonce ring_size client_queue l = record {
  ring = record {
    has_room = l;
    rising = tt;
    numbered = tt;
    old = [];
    split = refl;
    empty = λ e. refl;
  };
  streams = tt;
}

All_mapped :
    (P Q : Stream → Type 0) (f : Stream → Stream)
    → ((s : Stream) → P s → Q (f s))
    → (ss : List Stream) → All P ss
    → All Q (map f ss)
All_mapped P Q f h [] t = tt
All_mapped P Q f h (s ∷ ss) (p, t) = (h s p, All_mapped P Q f h ss t)

at_stream-All :
    (P : Stream → Type 0) (f : Stream → Stream)
    → ((s : Stream) → P s → P (f s))
    → (n : ℕ) (ss : List Stream) → All P ss
    → All P (at_stream n f ss)
unfolding at_stream
at_stream-All P f h n [] t = tt
at_stream-All P f h zero (s ∷ ss) (p, t) = (h s p, t)
at_stream-All P f h (suc n) (s ∷ ss) (p, t) = (p, at_stream-All P f h n ss t)

All-append : (P : Stream → Type 0) (xs ys : List Stream) → All P xs → All P ys → All P (xs ++ ys)
All-append P [] ys h k = k
All-append P (x ∷ xs) ys (p, h) k = (p, All-append P xs ys h k)

fanout-IsLive : (w : Live) → IsLive w → IsLive (fanout w)
unfolding fanout
fanout-IsLive w v = go w.scheduled refl
  where
    go :
        (q : List LiveItem)
        → w.scheduled ≡ q
        → IsLive (elim q as (λ _. Live) [
          | [] ↦ w
          | i ∷ is ↦ record w { scheduled = is; streams = map (put w.hub.client_queue i) w.streams }
        ])
    go [] e = v
    go (i ∷ is) e = record {
      ring = v.ring;
      streams =
          All_mapped (Kept w.published (i ∷ is)) (Kept w.published is) (put w.hub.client_queue i)
            (λ s k. put-Kept w.hub.client_queue w.published is i s k) w.streams
            (subst (λ x. All (Kept w.published x) w.streams) e v.streams);
    }

module _ (stamp : Text → Option Text) (parse_int : Text → Option ℕ) where
  Kept-streams :
      (w w' : Live)
      → Keeps stamp parse_int w w'
      → IsLive w
      → All (Kept w'.published w'.scheduled) w'.streams
  Kept-streams w w' k v = subst (All (Kept w'.published w'.scheduled)) (sym k.streams) (
      All_map (Kept w.published w.scheduled) (Kept w'.published w'.scheduled) w.streams k.stream
        v.streams)

  connect-IsLive :
      (last : Option Text) (raws : List Text) (w : Live)
      → IsLive w
      → IsLive (connect stamp parse_int last raws w)
  unfolding connect opened Reaches Kept Warned Due
  connect-IsLive last raws w v =
      let k = publish_all-Keeps stamp parse_int raws w in
      let w' : Live = publish_all stamp parse_int raws w in
      let o : Stream = opened (asked parse_int w.hub last) (backlog_after parse_int w.hub last) in
      record {
        ring = k.ring v.ring;
        streams =
            All-append (Kept w'.published w'.scheduled) w'.streams (o ∷ []) (Kept-streams w w' k v)
              (
                k.stream o (
                    joined (backlog_after parse_int w.hub last)
                      (backlog_after-Reaches parse_int w.published w.hub v.ring last)),
                tt,
              );
      }
    where
      joined :
          (o : List LiveItem × Bool)
          → Reaches w.published (asked parse_int w.hub last) o
          → Kept w.published w.scheduled (opened (asked parse_int w.hub last) o)
      joined o (inl e) = inl (inr (inl e))
      joined o (inr h) =
          inr (
            refl,
            All_map _ _ w.published (λ i d. elim d [ inl l ↦ inl l | inr m ↦ inr (inl m) ]) h,
          )

  step-IsLive : (p : Step) (w : Live) → IsLive w → IsLive (step stamp parse_int p w)
  unfolding step
  step-IsLive (publish_step raw) w v =
      let k = publish-Keeps stamp parse_int raw w in
      record { ring = k.ring v.ring; streams = Kept-streams w (publish stamp parse_int raw w) k v }
  step-IsLive fanout_step w v = fanout-IsLive w v
  step-IsLive (connect_step last raws) w v = connect-IsLive last raws w v
  step-IsLive (advance_step n) w v = record {
    ring = v.ring;
    streams =
        at_stream-All (Kept w.published w.scheduled) advance (advance-Kept w.published w.scheduled)
          n w.streams v.streams;
  }
  step-IsLive (disconnect_step n) w v = record {
    ring = v.ring;
    streams =
        at_stream-All (Kept w.published w.scheduled) disconnect
          (λ s k. disconnect-Kept w.published w.scheduled s) n w.streams v.streams;
  }

  run-IsLive : (ps : List Step) (w : Live) → IsLive w → IsLive (run stamp parse_int ps w)
  unfolding run
  run-IsLive [] w v = v
  run-IsLive (p ∷ ps) w v = run-IsLive ps (step stamp parse_int p w) (step-IsLive p w v)

  -- Whatever the two threads do from the start of a hub whose ring has room: a client that has not left, and is
  -- neither told to resynchronize nor will be by its stream or its queue, is a member of the hub, and of each item
  -- that was numbered, it did not ask for it, or it was sent it, or the item is in its backlog, in its queue or in a
  -- fan-out to come.
  pub run-Kept :
      (nonce : Text) (ring_size client_queue : ℕ)
      → 0 < ring_size
      → (ps : List Step)
      → All
          (Kept
            (run stamp parse_int ps (started nonce ring_size client_queue)).published
            (run stamp parse_int ps (started nonce ring_size client_queue)).scheduled)
          (run stamp parse_int ps (started nonce ring_size client_queue)).streams
  run-Kept nonce ring_size client_queue l ps =
      (run-IsLive ps (started nonce ring_size client_queue)
        (started-IsLive nonce ring_size client_queue l)).streams
