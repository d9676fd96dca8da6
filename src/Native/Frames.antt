-- ===== src/Native/Frames.antt =====
-- src/crsdkpy/backend/native.py: what the frame sequencer lets through, over a run of polls.
use cr_sdkpy.Base.{
  ℕ, ◌+◌, ◌-◌, ◌≤◌, ◌≡◌, refl, sym, ◌∙◌, Bool, true, false, none, some, List, [], ◌∷◌, ltb, ◌==◌,
  ==_iff, if◌then◌else◌, length, ap, arith, nat_identity, Bool-cases, inl, inr,
}
use cr_sdkpy.Base.Dict.{lookup, insert, lookup-insert_self}
use cr_sdkpy.Native.Measured.{FrameSequencer, skipped_of, accept}

-- The frames that a run of polls is given, by their numbers.
abbrev pub delivered : ℕ → List ℕ → FrameSequencer → List ℕ × FrameSequencer
delivered id [] s = ([], s)
delivered id (n ∷ ns) s =
    let (b, s') = accept id n s in
    let (rest, s'') = delivered id ns s' in (if b then n ∷ rest else rest, s'')

-- A camera that does not count backwards.
abbrev pub Rising : ℕ → List ℕ → Type 0
Rising from [] = Unit
Rising from (n ∷ ns) = (from ≤ n) × Rising n ns

abbrev pub last_number : ℕ → List ℕ → ℕ
last_number from [] = from
last_number from (n ∷ ns) = last_number n ns

-- What one poll does to the account of a session whose last frame is known.
record Accounts (id previous n : ℕ) (s : FrameSequencer) (r : Bool × FrameSequencer) : Type 0 where
  newest : lookup id r.1.last ≡ some n
  account : skipped_of id r.1 + (if r.0 then 1 else 0) + previous ≡ skipped_of id s + n

accept-Accounts :
    (id previous n : ℕ) (s : FrameSequencer)
    → lookup id s.last ≡ some previous
    → previous ≤ n
    → Accounts id previous n s (accept id n s)
unfolding accept
accept-Accounts id previous n s known h = elim (Bool-cases (n == previous)) [
  | inl again ↦
      let e = (==_iff n previous).0 again in
      rw (known, accept)
        (rw again (record { newest = known ∙ ap some (sym e); account = omega (arith, e) }))
  | inr new ↦ elim (Bool-cases (ltb (previous + 1) n)) [
    | inl gap ↦
        rw (known, accept)
          (rw (new, gap)
            (record {
              newest = lookup-insert_self id n s.last;
              account =
                  rw
                    (
                      lookup-insert_self id (skipped_of id s + n - previous - 1) s.skipped,
                      skipped_of,
                    )
                    (ground arith);
            }))
    | inr next ↦
        rw (known, accept)
          (rw (new, next)
            (record {
              newest = lookup-insert_self id n s.last;
              account = ground (arith, ==_iff n previous);
            }))
  ]
]

-- The account of a run, behind a frame that was delivered: what is delivered and what is skipped
-- make up the numbers from that frame on.
delivered_account :
    (id previous : ℕ) (ns : List ℕ) (s : FrameSequencer)
    → lookup id s.last ≡ some previous
    → Rising previous ns
    → skipped_of id (delivered id ns s).1 + length (delivered id ns s).0 + previous
      ≡ skipped_of id s + last_number previous ns
delivered_account id previous [] s known h = omega arith
delivered_account id previous (n ∷ ns) s known h =
    step (accept id n s) (accept-Accounts id previous n s known h.0)
      (λ s' known'. delivered_account id n ns s' known' h.1)
  where
    step :
        (r : Bool × FrameSequencer)
        → Accounts id previous n s r
        → ((s' : FrameSequencer)
            → lookup id s'.last ≡ some n
            → skipped_of id (delivered id ns s').1 + length (delivered id ns s').0 + n
              ≡ skipped_of id s' + last_number n ns)
        → skipped_of id (delivered id ns r.1).1
            + length (if r.0 then n ∷ (delivered id ns r.1).0 else (delivered id ns r.1).0)
            + previous
          ≡ skipped_of id s + last_number n ns
    step (true, s') a ih = omega (arith, a.account, ih s' a.newest)
    step (false, s') a ih = omega (arith, a.account, ih s' a.newest)

accept_fresh :
    (id n : ℕ) (s : FrameSequencer)
    → lookup id s.last ≡ none
    → accept id n s ≡ (true, record s { last = insert id n s.last })
unfolding accept
accept_fresh id n s fresh = rw (fresh, accept) refl

-- Where no frame of the session is known yet and the camera does not count backwards, the frames
-- delivered over a run of polls and the frames counted as skipped make up the numbers from the
-- first frame to the last: none is counted twice and none is missing.
pub delivered-accounts_for_all :
    (id first : ℕ) (ns : List ℕ) (s : FrameSequencer)
    → lookup id s.last ≡ none
    → Rising first ns
    → skipped_of id (delivered id (first ∷ ns) s).1 + length (delivered id (first ∷ ns) s).0 + first
      ≡ skipped_of id s + last_number first ns + 1
delivered-accounts_for_all id first ns s fresh h =
    let s' : FrameSequencer = record s { last = insert id first s.last } in
    rw (accept_fresh id first s fresh, delivered, length)
      (omega (arith, delivered_account id first ns s' (lookup-insert_self id first s.last) h))
