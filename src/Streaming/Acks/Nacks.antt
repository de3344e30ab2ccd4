-- ===== src/Streaming/Acks/Nacks.antt =====
-- The missing numbers that `SendQuickAck` of api/Streaming.cpp lists.
use kovri.Common.{
  ℕ, zero, suc, ◌+◌, ◌-◌, ◌%◌, ◌^◌, ◌≤◌, ◌<◌, ◌≡◌, refl, ap, sym, subst, List, [], ◌∷◌, ◌++◌, Bool,
  false, arith, leb, ltb, ◌==◌, if◌then◌else◌, ◌&&◌, ◌||◌, not, length, length-append, All,
  All-append,
}
use kovri.Streaming.Packet.{Packet, get_seqn}
use kovri.Streaming.Acks.{is_nacked, range, fill_nacks, last_saved}
use kovri.Streaming.Acks.Kept.{IsOrdered}

-- A packet with this number is there.
abbrev pub has_seqn : ℕ → List Packet → Bool
has_seqn n [] = false
has_seqn n (p ∷ ps) = (n == get_seqn p) || has_seqn n ps

is_nacked-append :
    (n : ℕ) (xs ys : List ℕ) → is_nacked n (xs ++ ys) ≡ (is_nacked n xs || is_nacked n ys)
unfolding is_nacked
is_nacked-append n [] ys = refl
is_nacked-append n (x ∷ xs) ys = ground (arith, is_nacked-append n xs ys)

is_nacked-range : (n first k : ℕ) → is_nacked n (range first k) ≡ (leb first n && ltb n (first + k))
unfolding is_nacked range
is_nacked-range n first zero = ground arith
is_nacked-range n first (suc k) = ground (arith, is_nacked-range n (first + 1) k)

length-range : (first k : ℕ) → length (range first k) ≡ k
unfolding range
length-range first zero = refl
length-range first (suc k) = ap suc (length-range (first + 1) k)

pub last_saved-le :
    (last : ℕ) (ps : List Packet) → IsOrdered (suc last) ps → last ≤ last_saved ps last
unfolding last_saved
last_saved-le last [] o = omega arith
last_saved-le last (p ∷ ps) o = omega (arith, o.0, last_saved-le (get_seqn p) ps o.1)

pub has_seqn-above :
    (n lo : ℕ) (ps : List Packet) → IsOrdered lo ps → n < lo → has_seqn n ps ≡ false
has_seqn-above n lo [] o h = refl
has_seqn-above n lo (p ∷ ps) o h =
    ground (arith, o.0, has_seqn-above n (suc (get_seqn p)) ps o.1 (omega (arith, o.0, h)))

-- The condition on which all gaps are listed: fewer than 256 numbers above `last`.
abbrev pub IsShort : ℕ → ℕ → List Packet → Type 0
IsShort num last ps = (num + (last_saved ps last - last) < 256) × (last_saved ps last < 2 ^ 31)

All-range : (first k : ℕ) → first + k ≤ 2 ^ 32 → All (λ n. n < 2 ^ 32) (range first k)
unfolding range
All-range first zero h = tt
All-range first (suc k) h = (omega (arith, h), All-range (first + 1) k (omega (arith, h)))

-- One gap is listed, and the rest as before.
fill_nacks_step :
    (through num next : ℕ) (p : Packet) (ps : List Packet)
    → next ≤ get_seqn p
    → num + (get_seqn p - next) < 256
    → get_seqn p < 2 ^ 31
    → let rest = fill_nacks through (num + (get_seqn p - next)) (suc (get_seqn p)) ps in
      fill_nacks through num next (p ∷ ps) ≡ (range next (get_seqn p - next) ++ rest.0, rest.1)
unfolding fill_nacks
fill_nacks_step through num next p ps o few small =
    let seqn = get_seqn p in
    let gap : (if ltb next seqn then seqn - next else 0) ≡ seqn - next = ground (arith, o) in
    let after : (seqn + 1) % 2 ^ 32 ≡ suc seqn = omega (arith, small) in
    let fits : leb 256 ((num + (seqn + 2 ^ 32 - next)) % 2 ^ 32) ≡ false =
      ground (arith, o, few, small) in
    rw (gap, after, fits)

-- What is listed: the numbers above `last`, up to the last saved one, that are not saved. The number
-- to acknowledge through stays.
abbrev pub Lists : ℕ → ℕ → ℕ → List Packet → List ℕ × ℕ → Type 0
Lists through num last ps (nacks, through') =
    ((n : ℕ)
      → is_nacked n nacks ≡ (ltb last n && leb n (last_saved ps last) && not (has_seqn n ps)))
    × (through' ≡ through)
    × (num + length nacks < 256)
    × All (λ n. n < 2 ^ 32) nacks

Lists-gap :
    (through num last : ℕ) (p : Packet) (ps : List Packet) (rest : List ℕ × ℕ)
    → IsOrdered (suc last) (p ∷ ps)
    → last_saved ps (get_seqn p) < 2 ^ 31
    → Lists through (num + (get_seqn p - suc last)) (get_seqn p) ps rest
    → Lists through num last (p ∷ ps) (range (suc last) (get_seqn p - suc last) ++ rest.0, rest.1)
unfolding last_saved
Lists-gap through num last p ps rest o small (lists, same, few, bytes) =
    let gap = get_seqn p - suc last in
    let end = last_saved-le (get_seqn p) ps o.1 in
    (
      λ n. ground (
        arith,
        o.0,
        end,
        is_nacked-append n (range (suc last) gap) rest.0,
        is_nacked-range n (suc last) gap,
        lists n,
        λ (h : n < suc (get_seqn p)). has_seqn-above n (suc (get_seqn p)) ps o.1 h,
      ),
      same,
      omega (
        arith,
        o.0,
        length-append (range (suc last) gap) rest.0,
        length-range (suc last) gap,
        few,
      ),
      All-append (λ n. n < 2 ^ 32) (range (suc last) gap) rest.0
          (All-range (suc last) gap (omega (arith, o.0, end, small))) bytes,
    )

pub fill_nacks-Lists :
    (through num last : ℕ) (ps : List Packet)
    → IsOrdered (suc last) ps
    → IsShort num last ps
    → Lists through num last ps (fill_nacks through num (suc last) ps)
unfolding fill_nacks last_saved is_nacked
fill_nacks-Lists through num last [] o short = (λ n. ground arith, refl, omega (arith, short.0), tt)
fill_nacks-Lists through num last (p ∷ ps) o short =
    let end = last_saved-le (get_seqn p) ps o.1 in
    let gap = get_seqn p - suc last in
    let rest =
      fill_nacks-Lists through (num + gap) (get_seqn p) ps o.1
        (omega (arith, o.0, end, short.0), short.1) in
    subst (Lists through num last (p ∷ ps))
      (sym (
        fill_nacks_step through num (suc last) p ps o.0 (omega (arith, o.0, end, short.0))
          (omega (arith, end, short.1))))
      (Lists-gap through num last p ps _ o short.1 rest)
