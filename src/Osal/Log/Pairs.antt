-- ===== src/Osal/Log/Pairs.antt =====
-- The text of the pairs of a structured message: osal_log_structured of
-- user/osal/src/util/osal_log.c.
use lpf.Common.{
  ◌+◌, ◌-◌, ◌<◌, ◌≡◌, refl, ap, ◌∙◌, ltb, if_elim, if_true, List, [], ◌∷◌, ◌++◌, take, length,
  length-append, length-take, Option, none, some, arith,
}
use lpf.Common.Text.{Text}
use lpf.Osal.Log.Emit.{KvPair, KvBuffer, put_text, pair_text, put_pair, put_pairs, kv_text}

abbrev pub or_nothing : Option Text → Text
or_nothing none = []
or_nothing (some s) = s

-- All the pairs, one after the other.
unfoldable pub all_pairs : List KvPair → Text
all_pairs [] = []
all_pairs (p ∷ ps) = or_nothing (pair_text p.key p.value) ++ all_pairs ps

-- The buffer of 512 bytes holds what is written, with its NUL.
record Fits (b : KvBuffer) : Type 0 where
  kept : length b.kept < 512
  all : length b.kept + length b.rest < 512

put_text-Fits : (s : Text) (b : KvBuffer) → Fits b → Fits (put_text s b)
unfolding put_text
put_text-Fits s b ok =
    if_elim Fits (ltb (length b.kept + length s) 512) _ _
      (λ t. record {
        kept = ground (arith, t, length-append b.kept s);
        all = ground (arith, t, length-append b.kept s);
      })
      (λ _. record {
        kept = ok.kept;
        all = (let k = ok.kept in omega (arith, k, length-take (512 - length b.kept - 1) s));
      })

put_pairs-Fits : (ps : List KvPair) (b : KvBuffer) → Fits b → Fits (put_pairs ps b)
unfolding put_pairs put_pair
put_pairs-Fits [] b ok = ok
put_pairs-Fits (p ∷ ps) b ok = put_pairs-Fits ps _ (given (pair_text p.key p.value))
  where
    given : (o : Option Text) → Fits (put_pair o b)
    given none = ok
    given (some s) = put_text-Fits s b ok

append_assoc : (a b c : Text) → (a ++ b) ++ c ≡ a ++ (b ++ c)
append_assoc [] b c = refl
append_assoc (x ∷ a) b c = ap (◌∷◌ x) (append_assoc a b c)

-- Pairs that fit are all there.
put_pairs-all_pairs :
    (ps : List KvPair) (b : KvBuffer)
    → b.rest ≡ []
    → length b.kept + length (all_pairs ps) < 512
    → (put_pairs ps b).kept ++ (put_pairs ps b).rest ≡ b.kept ++ all_pairs ps
unfolding put_pairs put_pair put_text all_pairs
put_pairs-all_pairs [] b clean fits = ap (λ (t : Text). b.kept ++ t) clean
put_pairs-all_pairs (p ∷ ps) b clean fits =
    given (pair_text p.key p.value) (λ b' clean' fits'. put_pairs-all_pairs ps b' clean' fits') fits
  where
    given :
        (o : Option Text)
        → ((b' : KvBuffer)
            → b'.rest ≡ []
            → length b'.kept + length (all_pairs ps) < 512
            → (put_pairs ps b').kept ++ (put_pairs ps b').rest ≡ b'.kept ++ all_pairs ps)
        → length b.kept + length (or_nothing o ++ all_pairs ps) < 512
        → (put_pairs ps (put_pair o b)).kept ++ (put_pairs ps (put_pair o b)).rest
          ≡ b.kept ++ (or_nothing o ++ all_pairs ps)
    given none go room = go b clean room
    given (some s) go room =
        ap (λ (b' : KvBuffer). (put_pairs ps b').kept ++ (put_pairs ps b').rest)
          (if_true (ltb (length b.kept + length s) 512) _ _
            (ground (arith, room, length-append s (all_pairs ps))))
        ∙ go (record { kept = b.kept ++ s; rest = [] }) refl
            (omega (arith, room, length-append s (all_pairs ps), length-append b.kept s))
        ∙ append_assoc b.kept s (all_pairs ps)

-- The text of the pairs never exceeds its buffer of 512 bytes with the NUL, and if the first eight
-- pairs together are shorter than that, then it is all of them in their order, without those with a
-- NULL.
pub kv_text-all_pairs :
    (pairs : List KvPair)
    → (length (kv_text pairs) < 512)
      × (length (all_pairs (take 8 pairs)) < 512 → kv_text pairs ≡ all_pairs (take 8 pairs))
unfolding kv_text
kv_text-all_pairs pairs = (
  total (put_pairs-Fits (take 8 pairs) empty (record { kept = omega arith; all = omega arith })),
  λ room. put_pairs-all_pairs (take 8 pairs) empty refl (omega (arith, room)),
)
  where
    empty : KvBuffer
    empty = record { kept = []; rest = [] }

    total : {b : KvBuffer} → Fits b → length (b.kept ++ b.rest) < 512
    total {b = b} ok = (let k = ok.all in omega (arith, k, length-append b.kept b.rest))
