-- ===== src/Pipeline/Synchronizer/Spread.antt =====
-- The span of a bundle against the distances between its packets.
use ai_intelligence_theft_de.Base.{ℕ, ◌+◌, ◌-◌, ◌≤◌, List, [], ◌∷◌, arith, max, min}
use ai_intelligence_theft_de.Pipeline.Synchronizer.{Packet, newest, oldest}

-- Every packet lies in the interval.
abbrev pub Within : ℕ → ℕ → List Packet → Type 0
Within lo hi [] = Unit
Within lo hi (p ∷ ps) = ((lo ≤ p.monotonic_ns) × (p.monotonic_ns ≤ hi)) × Within lo hi ps

Within-mono :
    (lo hi lo' hi' : ℕ) (ps : List Packet)
    → lo' ≤ lo
    → hi ≤ hi'
    → Within lo hi ps
    → Within lo' hi' ps
Within-mono lo hi lo' hi' [] a b w = tt
Within-mono lo hi lo' hi' (p ∷ ps) a b w = (omega arith, Within-mono lo hi lo' hi' ps a b w.1)

newest-le : (t : ℕ) (ps : List Packet) → t ≤ newest t ps
unfolding newest
newest-le t [] = omega arith
newest-le t (p ∷ ps) = omega (arith, newest-le (max t p.monotonic_ns) ps)

le-oldest : (t : ℕ) (ps : List Packet) → oldest t ps ≤ t
unfolding oldest
le-oldest t [] = omega arith
le-oldest t (p ∷ ps) = omega (arith, le-oldest (min t p.monotonic_ns) ps)

below-newest : (t : ℕ) (ps : List Packet) → Within 0 (newest t ps) ps
unfolding newest
below-newest t [] = tt
below-newest t (p ∷ ps) =
    (omega (arith, newest-le (max t p.monotonic_ns) ps), below-newest (max t p.monotonic_ns) ps)

above-oldest : (t hi : ℕ) (ps : List Packet) → Within 0 hi ps → Within (oldest t ps) hi ps
unfolding oldest
above-oldest t hi [] w = tt
above-oldest t hi (p ∷ ps) w = (
  omega (arith, le-oldest (min t p.monotonic_ns) ps),
  above-oldest (min t p.monotonic_ns) hi ps w.1,
)

newest-least : (t lo hi : ℕ) (ps : List Packet) → t ≤ hi → Within lo hi ps → newest t ps ≤ hi
unfolding newest
newest-least t lo hi [] h w = h
newest-least t lo hi (p ∷ ps) h w = newest-least (max t p.monotonic_ns) lo hi ps (omega arith) w.1

oldest-greatest : (t lo hi : ℕ) (ps : List Packet) → lo ≤ t → Within lo hi ps → lo ≤ oldest t ps
unfolding oldest
oldest-greatest t lo hi [] h w = h
oldest-greatest t lo hi (p ∷ ps) h w =
    oldest-greatest (min t p.monotonic_ns) lo hi ps (omega arith) w.1

-- The packets are aligned: some interval of length `tolerance` holds them all.
pub record IsAligned (tolerance : ℕ) (p : Packet) (ps : List Packet) : Type 0 where
  pub lo : ℕ
  pub hi : ℕ
  pub short : hi ≤ lo + tolerance
  pub inside : Within lo hi (p ∷ ps)

pub IsAligned-of_span :
    (tolerance : ℕ) (p : Packet) (ps : List Packet)
    → newest p.monotonic_ns ps - oldest p.monotonic_ns ps ≤ tolerance
    → IsAligned tolerance p ps
IsAligned-of_span tolerance p ps h =
    let t = p.monotonic_ns in
    record {
      lo = oldest t ps;
      hi = newest t ps;
      short = omega (arith, newest-le t ps, le-oldest t ps);
      inside =
          ((le-oldest t ps, newest-le t ps), above-oldest t (newest t ps) ps (below-newest t ps));
    }

pub span_of_aligned :
    (tolerance : ℕ) (p : Packet) (ps : List Packet)
    → IsAligned tolerance p ps
    → newest p.monotonic_ns ps - oldest p.monotonic_ns ps ≤ tolerance
span_of_aligned tolerance p ps a = omega (
  arith,
  newest-least p.monotonic_ns a.lo a.hi ps a.inside.0.1 a.inside.1,
  oldest-greatest p.monotonic_ns a.lo a.hi ps a.inside.0.0 a.inside.1,
)
