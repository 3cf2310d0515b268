-- ===== src/Durability/Wal/Loop.antt =====
-- The loop of `Pending::scan` in src/durability/wal.rs on whole records, and on a batch cut short.
use trunkdb.Base.{
  ℕ, zero, suc, ◌+◌, ◌-◌, ◌*◌, ◌≤◌, ◌<◌, Bool, true, false, none, List, [], ◌∷◌, ◌++◌, ◌≡◌, refl,
  ap, ◌∙◌, length, take, All, length-append, length-take, append_assoc, append-nil,
  take-length_append, Bool-cases, inl, inr, ltb, Bytes, arith,
}
use trunkdb.Base.ByteString.{to_le, from_le, from_le-to_le, length-to_le}
use trunkdb.Crc32.{crc32}
use trunkdb.Durability.Wal.Defs.{
  ok, ◌>>=◌, PageImage, Records, page_entry_len, encode_body, encode_record, next_record,
  read_exact,
}
use trunkdb.Durability.Wal.ReadBack.{
  IsRecord, length-encode_record, behind, next_record-encode_record, record_pages-encode_entries,
  take_fields,
}
use trunkdb.Durability.Wal.Scan.{Seen, see_pages, close_batch, scan_loop, scan_next, encode_records}
use trunkdb.Durability.Wal.Seen.{Part, IsPart, IsBatch, with_images, see_parts, see_more}

take-take : {A : Type 0} (n k : ℕ) (xs : List A) → n ≤ k → take n (take k xs) ≡ take n xs
take-take zero k xs h = refl
take-take (suc n) zero xs h = absurd (omega arith)
take-take (suc n) (suc k) [] h = refl
take-take (suc n) (suc k) (x ∷ xs) h = ap (◌∷◌ x) (take-take n k xs (omega arith))

-- A record cut short is the end of the reading.
next_record_torn :
    (images : List PageImage) (more : Bool) (r : Records) (k : ℕ)
    → IsRecord images
    → r.input ≡ take k (encode_record images more)
    → r.left ≡ k
    → k < length (encode_record images more)
    → next_record r ≡ ok none
unfolding next_record encode_record read_exact
next_record_torn images more r k h e l short =
    let body = encode_body images more in
    let n = 8 + length images * page_entry_len in
    let len = to_le 4 n in
    let crc = to_le 4 (crc32 body) in
    let long : k < 16 + length images * page_entry_len =
      omega (arith, length-encode_record images more h.0, short) in
    let enough : length (take k (len ++ (crc ++ body))) ≡ k =
      omega (arith, length-take k (len ++ (crc ++ body)), short) in
    let prefix : 8 ≤ k → from_le (take 4 (take 8 (take k (len ++ (crc ++ body))))) ≡ n = λ eight.
      ap (λ (b : Bytes). from_le (take 4 b))
        (take-take 8 k (len ++ (crc ++ body)) eight
          ∙ take_fields len crc body 4 4 (length-to_le 4 n) (length-to_le 4 (crc32 body)))
      ∙ ap from_le (take-length_append 4 len crc (length-to_le 4 n))
      ∙ from_le-to_le 4 n (omega (arith, h.1)) in
    elim (Bool-cases (ltb k 8)) [
      | inr some_left ↦
          let eight : 8 ≤ k = ground arith in
          let some_input : ltb (length (take k (len ++ (crc ++ body)))) 8 ≡ false = ground arith in
          let cut : ltb (k - 8) n ≡ true = ground arith in
          rw (l, e, some_left, some_input, prefix eight, cut) refl
      | inl none_left ↦ rw (l, none_left) refl
    ]

abbrev pub past : List Part → Records → Bytes → Records
past parts r rest = record r {
  input = rest;
  left = r.left - length (encode_records parts);
  offset = r.offset + length (encode_records parts);
}

pub scan_loop-suc :
    (fuel : ℕ) (r : Records) (s : Seen)
    → scan_loop (suc fuel) r s ≡ (next_record r >>= scan_next (scan_loop fuel) s)
unfolding scan_loop
scan_loop-suc fuel r s = refl

-- One turn of the loop, on a record that was written.
pub scan_loop_part :
    (images : List PageImage) (more : Bool) (r : Records) (rest : Bytes) (s : Seen) (fuel : ℕ)
    → IsRecord images
    → r.version ≡ 3
    → r.input ≡ encode_record images more ++ rest
    → length (encode_record images more) ≤ r.left
    → scan_loop (suc fuel) r s
      ≡ scan_loop fuel
          (behind images r rest)
          (close_batch more (r.offset + (16 + length images * page_entry_len)) (see_pages images s))
scan_loop_part images more r rest s fuel h v e fits =
    rw
      (
        scan_loop-suc,
        next_record-encode_record images more r rest h v e fits,
        record_pages-encode_entries images more h.0,
      )
      refl

-- The loop passes over whole records.
pub scan_loop-encode_records :
    (parts : List Part) (r : Records) (rest : Bytes) (s : Seen) (fuel : ℕ)
    → All IsPart parts
    → r.version ≡ 3
    → r.input ≡ encode_records parts ++ rest
    → length (encode_records parts) ≤ r.left
    → scan_loop (length parts + fuel) r s
      ≡ scan_loop fuel (past parts r rest) (see_parts parts r.offset s)
unfolding encode_records see_parts
scan_loop-encode_records [] r rest s fuel h v e fits =
    let fuels : 0 + fuel ≡ fuel = omega arith in
    let lefts : r.left - 0 ≡ r.left = omega arith in
    let offsets : r.offset + 0 ≡ r.offset = omega arith in rw (← e, fuels, lefts, offsets) refl
scan_loop-encode_records ((images, more) ∷ parts) r rest s fuel h v e fits =
    let size = length-encode_record images more h.0.0 in
    let total = length-append (encode_record images more) (encode_records parts) in
    let offset' = r.offset + (16 + length images * page_entry_len) in
    let behind' = behind images r (encode_records parts ++ rest) in
    let fits' : length (encode_records parts) ≤ behind'.left = omega (arith, size, total, fits) in
    let offsets : offset' + length (encode_records parts)
        ≡ r.offset + length (encode_record images more ++ encode_records parts) =
      omega (arith, size, total) in
    let lefts : behind'.left - length (encode_records parts)
        ≡ r.left - length (encode_record images more ++ encode_records parts) =
      omega (arith, size, total) in
    let fuels : length ((images, more) ∷ parts) + fuel ≡ suc (length parts + fuel) = omega arith in
    ap (λ n. scan_loop n r s) fuels
    ∙ scan_loop_part images more r (encode_records parts ++ rest) s (length parts + fuel) h.0 v
        (e ∙ append_assoc (encode_record images more) (encode_records parts) rest)
        (omega (arith, total, fits))
    ∙ scan_loop-encode_records parts behind' rest (close_batch more offset' (see_pages images s))
        fuel h.1 v refl fits'
    ∙ rw (offsets, lefts) refl

-- The loop on a batch that is cut short: nothing of it is closed.
pub record TornScan (fuel : ℕ) (r : Records) (s : Seen) : Type 0 where
  pub images : List PageImage
  pub scans : scan_loop fuel r s ≡ ok (with_images s images)

take_short : {A : Type 0} (k : ℕ) (a b : List A) → k ≤ length a → take k (a ++ b) ≡ take k a
take_short zero a b h = refl
take_short (suc k) [] b h = absurd (omega arith)
take_short (suc k) (x ∷ a) b h = ap (◌∷◌ x) (take_short k a b (omega arith))

take_long :
    {A : Type 0} (k : ℕ) (a b : List A)
    → length a ≤ k
    → take k (a ++ b) ≡ a ++ take (k - length a) b
take_long k [] b h = ap (λ n. take n b) (omega arith)
take_long zero (x ∷ a) b h = absurd (omega arith)
take_long (suc k) (x ∷ a) b h =
    let less : suc k - suc (length a) ≡ k - length a = omega arith in
    rw less (ap (◌∷◌ x) (take_long k a b (omega arith)))

scan_loop-none :
    (fuel : ℕ) (r : Records) (s : Seen) → next_record r ≡ ok none → scan_loop (suc fuel) r s ≡ ok s
scan_loop-none fuel r s e = rw (scan_loop-suc, e) refl

torn_now : (fuel : ℕ) (r : Records) (s : Seen) → next_record r ≡ ok none → TornScan (suc fuel) r s
torn_now fuel r s e = record {
  images = [];
  scans = scan_loop-none fuel r s e ∙ rw (append-nil s.ids, append-nil s.headers) refl;
}

close_batch-true : (offset : ℕ) (s : Seen) → close_batch true offset s ≡ s
unfolding close_batch
close_batch-true offset s = refl

torn_later :
    (images : List PageImage) (fuel : ℕ) (r r' : Records) (s : Seen)
    → TornScan fuel r' (see_pages images s)
    → scan_loop (suc fuel) r s ≡ scan_loop fuel r' (see_pages images s)
    → TornScan (suc fuel) r s
torn_later images fuel r r' s later e = record {
  images = images ++ later.images;
  scans = e ∙ later.scans ∙ ap ok (see_more images later.images s);
}

pub scan_loop_torn :
    (batch : List Part) (k fuel : ℕ) (r : Records) (s : Seen)
    → IsBatch batch
    → All IsPart batch
    → r.version ≡ 3
    → r.input ≡ take k (encode_records batch)
    → r.left ≡ k
    → k < length (encode_records batch)
    → k < fuel
    → TornScan fuel r s
unfolding encode_records
scan_loop_torn [] k fuel r s b h v e l short enough = absurd b
scan_loop_torn batch k zero r s b h v e l short enough = absurd (omega arith)
scan_loop_torn ((images, more) ∷ []) k (suc fuel) r s b h v e l short enough =
    let one = append-nil (encode_record images more) in
    torn_now fuel r s
      (next_record_torn images more r k h.0 (e ∙ ap (take k) one) l (rw one at short))
scan_loop_torn ((images, more) ∷ part ∷ parts) k (suc fuel) r s b h v e l short enough =
    let first = encode_record images more in
    let others = encode_records (part ∷ parts) in
    elim (Bool-cases (ltb k (length first))) [
      | inl cut ↦ torn_now fuel r s (
          next_record_torn images more r k h.0 (e ∙ take_short k first others (ground arith)) l
            (ground arith))
      | inr passed ↦
          let long : length first ≤ k = ground arith in
          let k' = k - length first in
          let size = length-encode_record images more h.0.0 in
          let r' = behind images r (take k' others) in
          let later =
            scan_loop_torn (part ∷ parts) k' fuel r' (see_pages images s) b.1 h.1 v refl
              (omega (arith, size, l)) (omega (arith, short, length-append first others, long))
              (omega (arith, size, enough, long)) in
          torn_later images fuel r r' s later (
            scan_loop_part images more r (take k' others) s fuel h.0 v
              (e ∙ take_long k first others long) (omega (arith, long, l))
            ∙ ap
                (λ (m : Bool). scan_loop fuel r' (
                  close_batch m (r.offset + (16 + length images * page_entry_len))
                    (see_pages images s)))
                b.0
            ∙ ap (scan_loop fuel r') (
                close_batch-true (r.offset + (16 + length images * page_entry_len))
                  (see_pages images s)))
    ]
