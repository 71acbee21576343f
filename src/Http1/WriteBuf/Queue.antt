-- ===== src/Http1/WriteBuf/Queue.antt =====
-- The write buffer is a queue of bytes, with either strategy.
use hwire.Base.{
  ℕ, zero, suc, ◌+◌, ◌-◌, ◌≤◌, ◌≡◌, inl, inr, refl, sym, ap, subst, ◌∙◌, Bool, true, false,
  Bool-cases, some, List, [], ◌∷◌, ◌++◌, append-nil, append_assoc, ltb, ltb→lt, ◌==◌, Bytes, length,
  drop, concat, length-append, length-drop, arith,
}
use hwire.Http1.WriteBuf.{
  BufList, push, advance_bufs, advance_list, WriteStrategy, flatten, queue, Cursor,
  cursor_remaining, WriteBuf, buffer, remaining, advance, maybe_unshift,
}

-- The bytes that the list has still to give.
abbrev pub listed : BufList → Bytes
listed l = concat l.bufs

abbrev pub Counted : BufList → Type 0
Counted l = l.remaining ≡ length (listed l)

concat-append : (xs ys : List Bytes) → concat (xs ++ ys) ≡ concat xs ++ concat ys
concat-append [] ys = refl
concat-append (x ∷ xs) ys = rw (concat-append xs ys) (sym (append_assoc x (concat xs) (concat ys)))

push-listed :
    (l : BufList) (b : Bytes) → Counted l → Counted (push l b) × (listed (push l b) ≡ listed l ++ b)
unfolding push
push-listed l b h =
    let e : concat (l.bufs ++ b ∷ []) ≡ concat l.bufs ++ b =
      concat-append l.bufs (b ∷ []) ∙ ap (◌++◌ (concat l.bufs)) (append-nil b) in
    (omega (arith, ap length e, length-append (concat l.bufs) b), e)

drop-append_short : (n : ℕ) (xs ys : Bytes) → n ≤ length xs → drop n (xs ++ ys) ≡ drop n xs ++ ys
drop-append_short zero xs ys h = refl
drop-append_short (suc n) [] ys h = absurd (omega arith)
drop-append_short (suc n) (x ∷ xs) ys h = drop-append_short n xs ys (omega arith)

drop-append_long :
    (n : ℕ) (xs ys : Bytes) → length xs ≤ n → drop n (xs ++ ys) ≡ drop (n - length xs) ys
drop-append_long n [] ys h = let e : n - 0 ≡ n = omega arith in rw e
drop-append_long zero (x ∷ xs) ys h = absurd (omega arith)
drop-append_long (suc n) (x ∷ xs) ys h =
    let e : suc n - suc (length xs) ≡ n - length xs = omega arith in
    rw e (drop-append_long n xs ys (omega arith))

record Advanced (cnt : ℕ) (bufs : List Bytes) : Type 0 where
  left : List Bytes
  advances : advance_bufs cnt bufs ≡ some left
  gives : concat left ≡ drop cnt (concat bufs)

drop-nil : (n : ℕ) → [] ≡ drop {A = ℕ} n []
drop-nil zero = refl
drop-nil (suc n) = refl

eq_of_test : (a b : ℕ) → (a == b) ≡ true → a ≡ b
eq_of_test a b h = ground arith

le_of_ltb : (a b : ℕ) → ltb a b ≡ false → b ≤ a
le_of_ltb a b h = ground arith

advance_bufs-Advanced :
    (cnt : ℕ) (bufs : List Bytes) → cnt ≤ length (concat bufs) → Advanced cnt bufs
unfolding advance_bufs
advance_bufs-Advanced cnt [] h = record { left = []; advances = ground arith; gives = drop-nil cnt }
advance_bufs-Advanced cnt (b ∷ bs) h = elim (Bool-cases (cnt == 0)) [
  | inl z ↦ record {
    left = b ∷ bs;
    advances = rw z;
    gives = ap (λ q. drop q (b ++ concat bs)) (sym (eq_of_test cnt 0 z));
  }
  | inr nz ↦ elim (Bool-cases (ltb cnt (length b))) [
    | inl short ↦ record {
      left = drop cnt b ∷ bs;
      advances = rw (nz, short);
      gives =
          sym (drop-append_short cnt b (concat bs) (omega (arith, ltb→lt cnt (length b) short)));
    }
    | inr long ↦
        let k = le_of_ltb cnt (length b) long in
        let r =
          advance_bufs-Advanced (cnt - length b) bs (omega (arith, length-append b (concat bs))) in
        record {
          left = r.left;
          advances = rw (nz, long) r.advances;
          gives = r.gives ∙ sym (drop-append_long cnt b (concat bs) k);
        }
  ]
]

-- Advancing by no more than is left drops that many bytes.
record ListAdvanced (l : BufList) (cnt : ℕ) : Type 0 where
  left : BufList
  advances : advance_list l cnt ≡ some left
  counted : Counted left
  gives : listed left ≡ drop cnt (listed l)

advance_list-ListAdvanced :
    (l : BufList) (cnt : ℕ) → Counted l → cnt ≤ length (listed l) → ListAdvanced l cnt
unfolding advance_list
advance_list-ListAdvanced l cnt c h =
    let a = advance_bufs-Advanced cnt l.bufs h in
    record {
      left = record { bufs = a.left; remaining = l.remaining - cnt };
      advances = ground (arith, a.advances);
      counted = omega (arith, ap length a.gives, length-drop cnt (listed l));
      gives = a.gives;
    }

-- The bytes that the write buffer has still to give: the header bytes, then the queue.
abbrev pub unsent : WriteBuf → Bytes
unsent w = drop w.headers.pos w.headers.bytes ++ listed w.bufs

abbrev pub QueueIfFlat : WriteStrategy → WriteBuf → Type 0
QueueIfFlat flatten w = w.bufs.bufs ≡ []
QueueIfFlat queue w = Unit

pub record IsBuf (w : WriteBuf) : Type 0 where
  pub counted : Counted w.bufs
  pub within : w.headers.pos ≤ length w.headers.bytes

pub remaining-length : (w : WriteBuf) → IsBuf w → remaining w ≡ length (unsent w)
unfolding remaining
remaining-length w i = omega (
  arith,
  length-append (drop w.headers.pos w.headers.bytes) (listed w.bufs),
  length-drop w.headers.pos w.headers.bytes,
  i.counted,
  i.within,
)

unshift-Cursor :
    (c : Cursor) (room : Bool)
    → c.pos ≤ length c.bytes
    → ((maybe_unshift c room).pos ≤ length (maybe_unshift c room).bytes)
      × (drop (maybe_unshift c room).pos (maybe_unshift c room).bytes ≡ drop c.pos c.bytes)
unfolding maybe_unshift
unshift-Cursor c room h = ground arith

abbrev headed : WriteBuf → Cursor → Bytes → WriteBuf
headed w c b = record w { headers = record c { bytes = c.bytes ++ b } }

buffer_flat :
    (w : WriteBuf) (room : Bool) (b : Bytes)
    → w.strategy ≡ flatten
    → buffer w room b ≡ headed w (maybe_unshift w.headers room) b
unfolding buffer
buffer_flat w room b e = ground arith

buffer_queued :
    (w : WriteBuf) (room : Bool) (b : Bytes)
    → w.strategy ≡ queue
    → buffer w room b ≡ record w { bufs = push w.bufs b }
unfolding buffer
buffer_queued w room b e = ground arith

abbrev Buffers : WriteBuf → Bytes → WriteBuf → Type 0
Buffers w b w' = IsBuf w' × (unsent w' ≡ unsent w ++ b)

headed-Buffers :
    (w : WriteBuf) (c : Cursor) (b : Bytes)
    → IsBuf w
    → w.bufs.bufs ≡ []
    → c.pos ≤ length c.bytes
    → drop c.pos c.bytes ≡ drop w.headers.pos w.headers.bytes
    → Buffers w b (headed w c b)
headed-Buffers w c b i q h e = (
  record { counted = i.counted; within = omega (arith, length-append c.bytes b) },
  ap (λ l. drop c.pos (c.bytes ++ b) ++ concat l) q
      ∙ append-nil _
      ∙ drop-append_short c.pos c.bytes b h
      ∙ ap (λ l. l ++ b)
          (e
            ∙ sym (append-nil _)
            ∙ ap (λ l. drop w.headers.pos w.headers.bytes ++ concat l) (sym q)),
)

queued-Buffers :
    (w : WriteBuf) (b : Bytes) → IsBuf w → Buffers w b (record w { bufs = push w.bufs b })
queued-Buffers w b i =
    let (c, e) = push-listed w.bufs b i.counted in
    (
      record { counted = c; within = i.within },
      ap (◌++◌ (drop w.headers.pos w.headers.bytes)) e ∙ sym (append_assoc _ (listed w.bufs) b),
    )

-- Buffered bytes go behind all that is unsent, whether the vector has room or not; with the
-- strategy that flattens, this wants the queue to be empty, as `headers_mut` asserts.
pub buffer-unsent :
    (w : WriteBuf) (room : Bool) (b : Bytes)
    → IsBuf w
    → QueueIfFlat w.strategy w
    → IsBuf (buffer w room b) × (unsent (buffer w room b) ≡ unsent w ++ b)
buffer-unsent w room b i q = go w.strategy refl q
  where
    go : (st : WriteStrategy) → w.strategy ≡ st → QueueIfFlat st w → Buffers w b (buffer w room b)
    go flatten e q =
        let (h, p) = unshift-Cursor w.headers room i.within in
        subst (Buffers w b) (sym (buffer_flat w room b e))
          (headed-Buffers w (maybe_unshift w.headers room) b i q h p)
    go queue e q = subst (Buffers w b) (sym (buffer_queued w room b e)) (queued-Buffers w b i)

drop-drop : (n k : ℕ) (xs : Bytes) → drop n (drop k xs) ≡ drop (k + n) xs
drop-drop n zero xs = let e : 0 + n ≡ n = omega arith in rw e
drop-drop n (suc k) [] = let e : suc k + n ≡ suc (k + n) = omega arith in rw e (sym (drop-nil n))
drop-drop n (suc k) (x ∷ xs) =
    let e : suc k + n ≡ suc (k + n) = omega arith in rw e (drop-drop n k xs)

drop_all : (n : ℕ) (xs : Bytes) → length xs ≤ n → drop n xs ≡ []
drop_all n [] h = sym (drop-nil n)
drop_all zero (x ∷ xs) h = absurd (omega arith)
drop_all (suc n) (x ∷ xs) h = drop_all n xs (omega arith)

pub record BufAdvanced (w : WriteBuf) (cnt : ℕ) : Type 0 where
  pub left : WriteBuf
  pub advances : advance w cnt ≡ some left
  pub is_buf : IsBuf left
  pub gives : unsent left ≡ drop cnt (unsent w)

past_header :
    (w : WriteBuf) (cnt : ℕ)
    → cursor_remaining w.headers ≤ cnt
    → drop (cnt - cursor_remaining w.headers) (listed w.bufs) ≡ drop cnt (unsent w)
past_header w cnt h =
    let e : length (drop w.headers.pos w.headers.bytes) ≡ cursor_remaining w.headers =
      length-drop w.headers.pos w.headers.bytes in
    sym (
      drop-append_long cnt (drop w.headers.pos w.headers.bytes) (listed w.bufs) (omega arith)
      ∙ ap (λ k. drop (cnt - k) (listed w.bufs)) e)

abbrev with_reset : WriteBuf → BufList → WriteBuf
with_reset w l = record w { headers = record { bytes = []; pos = 0 }; bufs = l }

-- Advancing by no more than is unsent does not panic, and drops that many bytes from the front of
-- what is unsent; the list's count of its bytes stays right.
pub advance-BufAdvanced :
    (w : WriteBuf) (cnt : ℕ) → IsBuf w → cnt ≤ length (unsent w) → BufAdvanced w cnt
unfolding advance
advance-BufAdvanced w cnt i h = elim (Bool-cases (cursor_remaining w.headers == cnt)) [
  | inl same ↦
      let e = eq_of_test (cursor_remaining w.headers) cnt same in
      let z : cnt - cursor_remaining w.headers ≡ 0 = omega arith in
      record {
        left = with_reset w w.bufs;
        advances = rw same;
        is_buf = record { counted = i.counted; within = omega arith };
        gives = sym (ap (λ k. drop k (listed w.bufs)) z) ∙ past_header w cnt (omega arith);
      }
  | inr other ↦ elim (Bool-cases (ltb cnt (cursor_remaining w.headers))) [
    | inl inside ↦
        let k = ltb→lt cnt (cursor_remaining w.headers) inside in
        record {
          left = record w {
            headers = record { bytes = w.headers.bytes; pos = w.headers.pos + cnt };
          };
          advances = rw (other, inside);
          is_buf = record { counted = i.counted; within = omega arith };
          gives =
              ap (λ l. l ++ listed w.bufs) (sym (drop-drop cnt w.headers.pos w.headers.bytes))
              ∙ sym (
                  drop-append_short cnt (drop w.headers.pos w.headers.bytes) (listed w.bufs)
                    (omega (arith, length-drop w.headers.pos w.headers.bytes)));
        }
    | inr past ↦
        let k = le_of_ltb cnt (cursor_remaining w.headers) past in
        let r = advance_list-ListAdvanced w.bufs (cnt - cursor_remaining w.headers) i.counted (
          omega (
            arith,
            length-append (drop w.headers.pos w.headers.bytes) (listed w.bufs),
            length-drop w.headers.pos w.headers.bytes,
          )) in
        record {
          left = with_reset w r.left;
          advances = rw (other, past, r.advances);
          is_buf = record { counted = r.counted; within = omega arith };
          gives = r.gives ∙ past_header w cnt k;
        }
  ]
]
