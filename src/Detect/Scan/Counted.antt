-- ===== src/Detect/Scan/Counted.antt =====
-- `on_event` of flink/sih_detect/scan.py and the counts of the pairs.
use ot_security.Common.{
  ℕ, ◌+◌, ◌*◌, ◌≤◌, ◌≡◌, refl, sym, ◌∙◌, ap, subst, ◌==◌, Bool, true, false, ◌&&◌, ◌||◌, Option,
  none, some, List, [], ◌∷◌, length, if◌then◌else◌, arith, max, leb, All,
}
use ot_security.Common.Dict.{
  Text, text_eq, Dict, lookup, insert, NodupKeys, length-insert_new, length-insert_old,
  insert-NodupKeys,
}
use ot_security.Detect.Scan.{
  ScanConfig, Delta, Tally, Scan, split_bar, pair_of, add, contact, outcome, count_in, Finding,
  feature, is_due, observe, on_event,
}
use ot_security.Detect.Scan.Counts.{IsTally, put-IsTally, add-IsTally}

-- The port and the host of a pair
unfoldable pub port_of : Text → Text
port_of pair = (split_bar pair).1

unfoldable pub host_of : Text → Text
host_of pair = (split_bar pair).0

-- The pairs are distinct, at most as many as the cap, and counted: in all, by port and by host.
pub record Counted (limit : ℕ) (pairs : Dict Text ℕ) (port_hosts host_ports : Tally) (n : ℕ)
    : Type 0 where
  pub nodup : NodupKeys pairs
  pub total : n ≡ length pairs
  pub bound : n ≤ limit
  pub by_port : IsTally port_of pairs port_hosts
  pub by_host : IsTally host_of pairs host_ports

abbrev pub IsScan : ScanConfig → Scan → Type 0
IsScan cfg m = Counted cfg.scan_pair_cap m.pairs m.port_hosts m.host_ports m.n

-- A text with no bar: that of an address
abbrev pub NoBar : Text → Type 0
NoBar t = All (λ c. (c == 124) ≡ false) t

split_bar-pair_of :
    (dst port_key : Text) → NoBar dst → split_bar (pair_of dst port_key) ≡ (dst, port_key)
unfolding split_bar pair_of
split_bar-pair_of [] port_key h = refl
split_bar-pair_of (c ∷ cs) port_key (e, h) =
    ap
      (λ b.
        if b
        then ([], pair_of cs port_key)
        else (c ∷ (split_bar (pair_of cs port_key)).0, (split_bar (pair_of cs port_key)).1))
      e
    ∙ ap (λ o. (c ∷ o.0, o.1)) (split_bar-pair_of cs port_key h)

contact-IsScan :
    (cfg : ScanConfig) (d : Delta) (m : Scan)
    → NoBar d.dst
    → IsScan cfg m
    → IsScan cfg (contact cfg d m)
unfolding contact port_of host_of
contact-IsScan cfg d m b h = go (lookup pair m.pairs) refl (leb cfg.scan_pair_cap m.n) refl
  where
    pair : Text
    pair = pair_of d.dst d.port_key

    go :
        (o : Option ℕ)
        → lookup pair m.pairs ≡ o
        → (c : Bool) → leb cfg.scan_pair_cap m.n ≡ c
        → IsScan cfg (elim o as (λ _. Scan) [
          | some prev ↦ record m { pairs = insert pair (max prev d.obs_ms) m.pairs }
          | none ↦ if c then record m { capped = true } else record m {
            pairs = insert pair d.obs_ms m.pairs;
            n = m.n + 1;
            port_hosts = add d.port_key m.port_hosts;
            host_ports = add d.dst m.host_ports;
          }
        ])
    go (some prev) e c q = record {
      nodup = insert-NodupKeys pair _ m.pairs h.nodup;
      total = h.total ∙ sym (length-insert_old pair _ prev m.pairs e);
      bound = h.bound;
      by_port = put-IsTally port_of pair _ prev m.pairs m.port_hosts e h.by_port;
      by_host = put-IsTally host_of pair _ prev m.pairs m.host_ports e h.by_host;
    }
    go none e true q = h
    go none e false q = record {
      nodup = insert-NodupKeys pair d.obs_ms m.pairs h.nodup;
      total = let l = length-insert_new pair d.obs_ms m.pairs e in let t = h.total in omega arith;
      bound = under cfg.scan_pair_cap m.n q;
      by_port =
          subst (λ k. IsTally port_of (insert pair d.obs_ms m.pairs) (add k m.port_hosts)) port
            (add-IsTally port_of pair d.obs_ms m.pairs m.port_hosts e h.by_port);
      by_host =
          subst (λ k. IsTally host_of (insert pair d.obs_ms m.pairs) (add k m.host_ports)) host
            (add-IsTally host_of pair d.obs_ms m.pairs m.host_ports e h.by_host);
    }
      where
        under : (limit n : ℕ) → leb limit n ≡ false → n + 1 ≤ limit
        under limit n q = ground arith

        port : port_of pair ≡ d.port_key
        port = ap (λ x. x.1) (split_bar-pair_of d.dst d.port_key b)

        host : host_of pair ≡ d.dst
        host = ap (λ x. x.0) (split_bar-pair_of d.dst d.port_key b)

outcome-IsScan : (cfg : ScanConfig) (d : Delta) (m : Scan) → IsScan cfg m → IsScan cfg (outcome d m)
unfolding outcome
outcome-IsScan cfg d m h = go (d.terminal && (d.both_directions && d.has_state))
  where
    go :
        (b : Bool)
        → IsScan cfg (
            if b
            then record m {
              known = m.known + 1;
              failed = if d.failed then m.failed + 1 else m.failed;
            }
            else m)
    go true = h
    go false = h

feature-IsScan :
    (is_high_ratio : ℕ → ℕ → Bool) (allowed : Bool) (cfg : ScanConfig) (d : Delta) (m : Scan)
    → IsScan cfg m
    → IsScan cfg (feature is_high_ratio allowed cfg d m).0
unfolding feature
feature-IsScan is_high_ratio allowed cfg d m h = go (
    (leb cfg.scan_host_threshold (2 * count_in d.port_key m.port_hosts)
      || leb cfg.scan_port_threshold (2 * count_in d.dst m.host_ports))
    && is_due is_high_ratio allowed cfg d m)
  where
    chosen : Bool → Scan × Bool
    chosen b = if b then (record m { last_feature = some d.obs_ms }, true) else (m, false)

    go : (b : Bool) → IsScan cfg (chosen b).0
    go true = h
    go false = h

pub on_event-IsScan :
    (is_high_ratio : ℕ → ℕ → Bool) (allowed : Bool) (cfg : ScanConfig) (d : Delta) (m : Scan)
    → NoBar d.dst
    → IsScan cfg m
    → IsScan cfg (on_event is_high_ratio allowed cfg d m).0
unfolding on_event observe
on_event-IsScan is_high_ratio allowed cfg d m b h = go d.new_flow
  where
    chosen : Bool → Scan × List Finding × Bool × Option ℕ
    chosen c = if c then observe is_high_ratio allowed cfg d m else (m, [], false, none)

    go : (c : Bool) → IsScan cfg (chosen c).0
    go true =
        feature-IsScan is_high_ratio allowed cfg d _
          (outcome-IsScan cfg d (contact cfg d m) (contact-IsScan cfg d m b h))
    go false = h
