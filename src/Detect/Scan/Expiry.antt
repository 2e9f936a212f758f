-- ===== src/Detect/Scan/Expiry.antt =====
-- `on_timer` of flink/sih_detect/scan.py and the counts of the pairs that are left.
use ot_security.Common.{
  ℕ, ◌+◌, ◌-◌, ◌≡◌, refl, sym, ◌∙◌, ap, subst, ◌==◌, Bool, true, false, ◌&&◌, Option, none, some,
  List, [], ◌∷◌, ◌++◌, length, if◌then◌else◌, arith, leb, All, append_assoc,
}
use ot_security.Common.Dict.{
  Text, text_eq, Dict, lookup, erase, NodupKeys, length-erase, erase-NodupKeys, erase_absent,
  found_in_append,
}
use ot_security.Detect.Scan.{ScanConfig, Scan, on_event, empty}
use ot_security.Detect.Scan.Timer.{
  forget, expire, on_timer, Step, delta_step, timer_step, step, run,
}
use ot_security.Detect.Scan.Counts.{remove-IsTally, positive, count_by}
use ot_security.Detect.Scan.Counted.{port_of, host_of, IsScan, NoBar, on_event-IsScan}

-- The pairs that have not expired
unfoldable pub alive : ℕ → Dict Text ℕ → Dict Text ℕ
alive cutoff [] = []
alive cutoff ((p, seen) ∷ d) =
    let rest = alive cutoff d in if leb cutoff seen then (p, seen) ∷ rest else rest

erase_middle :
    (kept : Dict Text ℕ) (p : Text) (v : ℕ) (rest : Dict Text ℕ)
    → NodupKeys (kept ++ ((p, v) ∷ rest))
    → erase p (kept ++ ((p, v) ∷ rest)) ≡ kept ++ rest
unfolding erase
erase_middle [] p v rest n = ground (arith, erase_absent p rest)
erase_middle ((q, w) ∷ kept) p v rest n =
    ground (arith, erase_middle kept p v rest, found_in_append kept p v rest)

lookup_middle :
    (kept : Dict Text ℕ) (p : Text) (v : ℕ) (rest : Dict Text ℕ)
    → NodupKeys (kept ++ ((p, v) ∷ rest))
    → lookup p (kept ++ ((p, v) ∷ rest)) ≡ some v
unfolding lookup
lookup_middle [] p v rest n = ground arith
lookup_middle ((q, w) ∷ kept) p v rest n =
    ground (arith, lookup_middle kept p v rest, found_in_append kept p v rest)

forget-IsScan :
    (cfg : ScanConfig) (p : Text) (v : ℕ) (m : Scan)
    → lookup p m.pairs ≡ some v
    → IsScan cfg m
    → IsScan cfg (forget p m)
unfolding forget port_of host_of
forget-IsScan cfg p v m e h = record {
  nodup = erase-NodupKeys p m.pairs h.nodup;
  total = let l = length-erase p v m.pairs h.nodup e in let t = h.total in omega arith;
  bound = let b = h.bound in omega arith;
  by_port = remove-IsTally port_of p v m.pairs m.port_hosts h.nodup e h.by_port;
  by_host = remove-IsTally host_of p v m.pairs m.host_ports h.nodup e h.by_host;
}

-- What the loop leaves of the pairs after those that it has kept
record Expired (cfg : ScanConfig) (pairs : Dict Text ℕ) (m : Scan) : Type 0 where
  is_scan : IsScan cfg m
  left : m.pairs ≡ pairs

expire-Expired :
    (cfg : ScanConfig) (cutoff : ℕ) (kept rest : Dict Text ℕ) (m : Scan)
    → m.pairs ≡ kept ++ rest
    → IsScan cfg m
    → Expired cfg (kept ++ alive cutoff rest) (expire cutoff rest m)
unfolding expire alive forget
expire-Expired cfg cutoff kept [] m e h = record { is_scan = h; left = e }
expire-Expired cfg cutoff kept ((p, seen) ∷ rest) m e h =
    go (leb cutoff seen)
      (expire-Expired cfg cutoff (kept ++ ((p, seen) ∷ [])) rest m
        (e ∙ sym (append_assoc kept ((p, seen) ∷ []) rest)) h)
      (expire-Expired cfg cutoff kept rest (forget p m) forgotten
        (forget-IsScan cfg p seen m found h))
  where
    nodup : NodupKeys (kept ++ ((p, seen) ∷ rest))
    nodup = subst NodupKeys e h.nodup

    found : lookup p m.pairs ≡ some seen
    found = ap (lookup p) e ∙ lookup_middle kept p seen rest nodup

    forgotten : (forget p m).pairs ≡ kept ++ rest
    forgotten = ap (erase p) e ∙ erase_middle kept p seen rest nodup

    go :
        (b : Bool)
        → Expired cfg ((kept ++ ((p, seen) ∷ [])) ++ alive cutoff rest) (expire cutoff rest m)
        → Expired cfg (kept ++ alive cutoff rest) (expire cutoff rest (forget p m))
        → Expired cfg
            (kept ++ (if b then (p, seen) ∷ alive cutoff rest else alive cutoff rest))
            (if b then expire cutoff rest m else expire cutoff rest (forget p m))
    go true x y = record {
      is_scan = x.is_scan;
      left = x.left ∙ append_assoc kept ((p, seen) ∷ []) (alive cutoff rest);
    }
    go false x y = y

-- The state is cleared when all pairs have expired, and else has those that have not.
AfterTimer : ScanConfig → Dict Text ℕ → Option Scan → Type 0
AfterTimer cfg pairs none = pairs ≡ []
AfterTimer cfg pairs (some m) = IsScan cfg m × (m.pairs ≡ pairs)

on_timer-AfterTimer :
    (cfg : ScanConfig) (ts : ℕ) (m : Scan)
    → IsScan cfg m
    → AfterTimer cfg (alive (ts - cfg.scan_horizon_ms) m.pairs) (on_timer cfg ts m).0
unfolding on_timer AfterTimer
on_timer-AfterTimer cfg ts m h = go (m'.n == 0) refl
  where
    m' : Scan
    m' = expire (ts - cfg.scan_horizon_ms) m.pairs m

    x : Expired cfg (alive (ts - cfg.scan_horizon_ms) m.pairs) m'
    x = expire-Expired cfg (ts - cfg.scan_horizon_ms) [] m.pairs m refl h

    chosen : Bool → Option Scan × Option ℕ
    chosen b = if b then (none, none) else (
      some (record m' { capped = m'.capped && leb cfg.scan_pair_cap m'.n }),
      some (ts + 5000),
    )

    no_pairs : (d : Dict Text ℕ) → (length d == 0) ≡ true → d ≡ []
    no_pairs [] e = refl
    no_pairs (y ∷ d) e = ground arith

    go :
        (b : Bool)
        → (m'.n == 0) ≡ b
        → AfterTimer cfg (alive (ts - cfg.scan_horizon_ms) m.pairs) (chosen b).0
    go true e = sym x.left ∙ no_pairs m'.pairs (ap (λ k. k == 0) (sym x.is_scan.total) ∙ e)
    go false e = (x.is_scan, x.left)

-- The state of a key, when it has one
unfoldable pub IsKey : ScanConfig → Option Scan → Type 0
IsKey cfg none = Unit
IsKey cfg (some m) = IsScan cfg m

empty-IsScan : (cfg : ScanConfig) → IsScan cfg empty
unfolding empty positive count_by lookup
empty-IsScan cfg = record {
  nodup = tt;
  total = refl;
  bound = omega arith;
  by_port = record { nodup = tt; counted = λ k. refl; size = refl };
  by_host = record { nodup = tt; counted = λ k. refl; size = refl };
}

-- The host of a delta is an address, whose text has no bar.
abbrev pub IsAddressed : Step → Type 0
IsAddressed (delta_step allowed d) = NoBar d.dst
IsAddressed (timer_step ts) = Unit

module _ (is_high_ratio : ℕ → ℕ → Bool) (cfg : ScanConfig) where
  step-IsKey :
      (s : Step) (o : Option Scan)
      → IsAddressed s
      → IsKey cfg o
      → IsKey cfg (step is_high_ratio cfg s o)
  unfolding step IsKey AfterTimer
  step-IsKey (delta_step allowed d) none b h = go d.new_flow
    where
      go :
          (c : Bool)
          → IsKey cfg (if c then some (on_event is_high_ratio allowed cfg d empty).0 else none)
      go true = on_event-IsScan is_high_ratio allowed cfg d empty b (empty-IsScan cfg)
      go false = tt
  step-IsKey (delta_step allowed d) (some m) b h = on_event-IsScan is_high_ratio allowed cfg d m b h
  step-IsKey (timer_step ts) none b h = tt
  step-IsKey (timer_step ts) (some m) b h =
      go (on_timer cfg ts m).0 (on_timer-AfterTimer cfg ts m h)
    where
      go :
          (o : Option Scan)
          → AfterTimer cfg (alive (ts - cfg.scan_horizon_ms) m.pairs) o
          → IsKey cfg o
      go none a = tt
      go (some m') a = a.0

  run_from-IsKey :
      (ss : List Step) (o : Option Scan)
      → All IsAddressed ss
      → IsKey cfg o
      → IsKey cfg (run is_high_ratio cfg ss o)
  unfolding run
  run_from-IsKey [] o b h = h
  run_from-IsKey (s ∷ ss) o (a, b) h =
      run_from-IsKey ss (step is_high_ratio cfg s o) b (step-IsKey s o a h)

  -- After any deltas of a source, whose hosts have texts with no bar, and any timers: when the source has a state, its
  -- pairs are distinct and at most as many as the cap, `n` is their number, each port has as many hosts and each host
  -- as many ports as there are pairs with it, and `ports` and `hosts` are the numbers of the ports and the hosts.
  pub run-IsKey : (ss : List Step) → All IsAddressed ss → IsKey cfg (run is_high_ratio cfg ss none)
  unfolding IsKey
  run-IsKey ss b = run_from-IsKey ss none b tt
