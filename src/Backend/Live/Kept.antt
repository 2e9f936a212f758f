-- ===== src/Backend/Live/Kept.antt =====
-- What the streams of backend/sih_api/app.py owe their clients, over single steps of the hub.
use ot_security.Common.{
  ℕ, ◌≤◌, ◌≡◌, refl, sym, ◌∙◌, ap, subst, Bool, true, false, ◌||◌, Option, none, some, List, [],
  ◌∷◌, ◌++◌, length, ltb, if◌then◌else◌, inl, inr, ◌⊎◌, All, arith, ◌==◌,
}
use mathlib.Core.Bool.{false≢true}
use mathlib.Core.Option.{some-injective, none-ne-some}
use ot_security.Common.Members.{In, In-append_left, In-append_right, All-In, In-All, All_map}
use ot_security.Backend.Live.{LiveItem}
use ot_security.Backend.Live.Ring.{In-append}
use ot_security.Backend.Live.Stream.{Stream, put, advance, receive, disconnect}

-- The client was told to resynchronize, or will be, or has left.
unfoldable pub Warned : Stream → Type 0
Warned s = (s.told ≡ true) ⊎ ((s.resync ≡ true) ⊎ ((s.ended ≡ true) ⊎ In none s.queue))

-- An item is not after the number that was asked, or is to be sent from the backlog, or was sent, or is in the queue,
-- or in a fan-out to come.
unfoldable pub Due : Stream → List LiveItem → LiveItem → Type 0
Due s scheduled i =
    (i.seq ≤ s.after) ⊎ (In i s.backlog ⊎ (In i s.sent ⊎ (In (some i) s.queue ⊎ In i scheduled)))

unfoldable pub Kept : List LiveItem → List LiveItem → Stream → Type 0
Kept published scheduled s = Warned s ⊎ ((s.is_member ≡ true) × All (Due s scheduled) published)

full_size : (size : ℕ) → ¬ (((size == 0) || ltb (length {A = Option LiveItem} []) size) ≡ false)
full_size size e = ground arith

pub put-Kept :
    (size : ℕ) (published is : List LiveItem) (i : LiveItem) (s : Stream)
    → Kept published (i ∷ is) s
    → Kept published is (put size i s)
unfolding put Kept Warned Due
put-Kept size published is i s = go s.is_member refl ((size == 0) || ltb (length s.queue) size) refl
  where
    room :
        Kept published (i ∷ is) s
        → Kept published is (record s { queue = s.queue ++ (some i ∷ []) })
    room (inl (inl e)) = inl (inl e)
    room (inl (inr (inl e))) = inl (inr (inl e))
    room (inl (inr (inr (inl e)))) = inl (inr (inr (inl e)))
    room (inl (inr (inr (inr m)))) =
        inl (inr (inr (inr (In-append_left none s.queue (some i ∷ []) m))))
    room (inr (e, h)) = inr (
      e,
      All_map _ _ published
          (λ j d. elim d [
            | inl l ↦ inl l
            | inr (inl m) ↦ inr (inl m)
            | inr (inr (inl m)) ↦ inr (inr (inl m))
            | inr (inr (inr (inl m))) ↦
                inr (inr (inr (inl (In-append_left (some j) s.queue (some i ∷ []) m))))
            | inr (inr (inr (inr (inl q)))) ↦ inr (
                inr (
                  inr (
                    inl
                      (In-append_right (some j) s.queue (some i ∷ []) (inl (ap (λ x. some x) q))))))
            | inr (inr (inr (inr (inr m)))) ↦ inr (inr (inr (inr m)))
          ])
          h,
    )

    full :
        (q : List (Option LiveItem))
        → ((size == 0) || ltb (length q) size) ≡ false
        → Kept published is (elim q as (λ _. Stream) [
          | [] ↦ record s { is_member = false }
          | _ ∷ q' ↦ record s { is_member = false; queue = q' ++ (none ∷ []) }
        ])
    full [] f = absurd (full_size size f)
    full (x ∷ q) f = inl (inr (inr (inr (In-append_right none q (none ∷ []) (inl refl)))))

    go :
        (b : Bool)
        → s.is_member ≡ b
        → (c : Bool) → ((size == 0) || ltb (length s.queue) size) ≡ c
        → Kept published (i ∷ is) s
        → Kept published is (
            if b
            then (if c
                then record s { queue = s.queue ++ (some i ∷ []) }
                else (elim s.queue as (λ _. Stream) [
                  | [] ↦ record s { is_member = false }
                  | _ ∷ q ↦ record s { is_member = false; queue = q ++ (none ∷ []) }
                ]))
            else s)
    go false e c f (inl w) = inl w
    go false e c f (inr (m, h)) = absurd (false≢true (sym e ∙ m))
    go true e true f k = room k
    go true e false f k = full s.queue f

-- A new item is in a fan-out to come.
pub publish-Kept :
    (published scheduled : List LiveItem) (i : LiveItem) (s : Stream)
    → Kept published scheduled s
    → Kept (published ++ (i ∷ [])) (scheduled ++ (i ∷ [])) s
unfolding Kept Due
publish-Kept published scheduled i s (inl w) = inl w
publish-Kept published scheduled i s (inr (e, h)) = inr (
  e,
  All-In _ (published ++ (i ∷ [])) (λ j m. elim (In-append published (i ∷ []) j m) [
    | inl a ↦ elim (In-All _ published j h a) [
      | inl l ↦ inl l
      | inr (inl b) ↦ inr (inl b)
      | inr (inr (inl b)) ↦ inr (inr (inl b))
      | inr (inr (inr (inl b))) ↦ inr (inr (inr (inl b)))
      | inr (inr (inr (inr b))) ↦ inr (inr (inr (inr (In-append_left j scheduled (i ∷ []) b))))
    ]
    | inr a ↦ inr (inr (inr (inr (In-append_right j scheduled (i ∷ []) a))))
  ]),
)

pub disconnect-Kept :
    (published scheduled : List LiveItem) (s : Stream) → Kept published scheduled (disconnect s)
unfolding disconnect Kept Warned
disconnect-Kept published scheduled s = inl (inr (inr (inl refl)))

receive-Kept :
    (published scheduled : List LiveItem) (s : Stream) (i : LiveItem) (q : List (Option LiveItem))
    → s.queue ≡ some i ∷ q
    → Kept published scheduled s
    → Kept published scheduled (receive s (some i) q)
unfolding receive Kept Warned Due
receive-Kept published scheduled s i q f (inl (inl e)) = inl (inl e)
receive-Kept published scheduled s i q f (inl (inr (inl e))) = inl (inr (inl e))
receive-Kept published scheduled s i q f (inl (inr (inr (inl e)))) = inl (inr (inr (inl e)))
receive-Kept published scheduled s i q f (inl (inr (inr (inr m)))) = elim (subst (In none) f m) [
  | inl e ↦ absurd (none-ne-some i e)
  | inr n ↦ inl (inr (inr (inr n)))
]
receive-Kept published scheduled s i q f (inr (e, h)) = inr (
  e,
  All_map _ _ published
      (λ j d. elim d [
        | inl l ↦ inl l
        | inr (inl m) ↦ inr (inl m)
        | inr (inr (inl m)) ↦ inr (inr (inl (In-append_left j s.sent (i ∷ []) m)))
        | inr (inr (inr (inl m))) ↦ elim (subst (In (some j)) f m) [
          | inl q ↦ inr (inr (inl (In-append_right j s.sent (i ∷ []) (inl (some-injective j i q)))))
          | inr n ↦ inr (inr (inr (inl n)))
        ]
        | inr (inr (inr (inr m))) ↦ inr (inr (inr (inr m)))
      ])
      h,
)

backlog-Kept :
    (published scheduled : List LiveItem) (s : Stream) (i : LiveItem) (is : List LiveItem)
    → s.backlog ≡ i ∷ is
    → Kept published scheduled s
    → Kept published scheduled (record s { backlog = is; sent = s.sent ++ (i ∷ []) })
unfolding Kept Warned Due
backlog-Kept published scheduled s i is f (inl w) = inl w
backlog-Kept published scheduled s i is f (inr (e, h)) = inr (
  e,
  All_map _ _ published
      (λ j d. elim d [
        | inl l ↦ inl l
        | inr (inl m) ↦ elim (subst (In j) f m) [
          | inl q ↦ inr (inr (inl (In-append_right j s.sent (i ∷ []) (inl q))))
          | inr n ↦ inr (inl n)
        ]
        | inr (inr (inl m)) ↦ inr (inr (inl (In-append_left j s.sent (i ∷ []) m)))
        | inr (inr (inr m)) ↦ inr (inr (inr m))
      ])
      h,
)

pub advance-Kept :
    (published scheduled : List LiveItem) (s : Stream)
    → Kept published scheduled s
    → Kept published scheduled (advance s)
unfolding advance Kept Warned Due
advance-Kept published scheduled s k = go s.ended s.resync s.backlog refl s.queue refl refl
  where
    go :
        (ended resync : Bool) (backlog : List LiveItem)
        → s.backlog ≡ backlog
        → (queue : List (Option LiveItem)) → s.queue ≡ queue
        → s.resync ≡ resync
        → Kept published scheduled (
            if ended
            then s
            else if resync
            then record s { resync = false; told = true }
            else elim backlog as (λ _. Stream) [
              | i ∷ is ↦ record s { backlog = is; sent = s.sent ++ (i ∷ []) }
              | [] ↦ elim queue as (λ _. Stream) [ [] ↦ s | o ∷ q ↦ receive s o q ]
            ])
    go true resync b e q f g = k
    go false true b e q f g = inl (inl refl)
    go false false [] e [] f g = k
    go false false [] e (none ∷ q) f g = inl (inl refl)
    go false false [] e (some i ∷ q) f g = receive-Kept published scheduled s i q f k
    go false false (i ∷ is) e q f g = backlog-Kept published scheduled s i is e k
