-- ===== src/Log/Thread.antt =====
-- The lines that the thread hands to syslog are the messages that were sent.
use http_proxy.Base.{
  ℕ, zero, suc, ◌+◌, ◌≤◌, ◌<◌, ◌≡◌, ◌≢◌, ◌∙◌, refl, sym, ap, ap₂, true, false, Option, some, List,
  [], ◌∷◌, ◌++◌, append_assoc, append-nil, Bytes, ◌==◌, set, zeros, length, length-append, arith,
}
use http_proxy.Admin.{c_string}
use http_proxy.Log.{Cache, cleared, flushes, line, log_thread}
use http_proxy.ParserUtils.Matching.{NonZero}

-- The bytes of the messages, each with its closing 0.
abbrev pub packed : List Bytes → Bytes
packed [] = []
packed (m ∷ ms) = m ++ 0 ∷ packed ms

abbrev pub arrives : Bytes → List (Option ℕ)
arrives [] = []
arrives (c ∷ cs) = some c ∷ arrives cs

-- Messages that fit in the cache.
abbrev pub AllShort : List Bytes → Type 0
AllShort [] = Unit
AllShort (m ∷ ms) = NonZero m × (length m ≤ 2045) × AllShort ms

set-append :
    (pre junk : Bytes) (c : ℕ)
    → 0 < length junk
    → (tail : Bytes) × (set (pre ++ junk) (length pre) c ≡ pre ++ c ∷ tail)
      × (length junk ≡ suc (length tail))
set-append [] [] c h = absurd (omega arith)
set-append [] (j ∷ junk) c h = (junk, refl, refl)
set-append (p ∷ pre) junk c h =
    let (tail, e, n) = set-append pre junk c h in (tail, ap (◌∷◌ p) e, n)

c_string-closed : (pre tail : Bytes) → NonZero pre → c_string (pre ++ 0 ∷ tail) ≡ some pre
c_string-closed [] tail h = refl
c_string-closed (p ∷ pre) tail h =
    let more : (p == 0) ≡ false = ground arith in rw (c_string-closed pre tail h.1, more) refl

NonZero-snoc : (pre : Bytes) (c : ℕ) → NonZero pre → c ≢ 0 → NonZero (pre ++ c ∷ [])
NonZero-snoc [] c h n = (n, tt)
NonZero-snoc (p ∷ pre) c h n = (h.0, NonZero-snoc pre c h.1 n)

abbrev cache_of : Bytes → Bytes → Cache
cache_of pre junk = record { cache = pre ++ junk; position = length pre }

length-zeros : (n : ℕ) → length (zeros n) ≡ n
length-zeros zero = refl
length-zeros (suc n) = ap suc (length-zeros n)

length-cleared : length cleared ≡ 2048
unfolding cleared
length-cleared = length-zeros 2048

-- One byte of a message.
keeps_byte :
    (pre junk : Bytes) (c : ℕ) (reads : List (Option ℕ))
    → length pre + length junk ≡ 2048
    → length pre + 1 ≤ 2045
    → c ≢ 0
    → (tail : Bytes) × (log_thread (cache_of pre junk) (some c ∷ reads)
        ≡ log_thread (cache_of (pre ++ c ∷ []) tail) reads)
      × (length (pre ++ c ∷ []) + length tail ≡ 2048)
unfolding log_thread
keeps_byte pre junk c reads full short nz =
    let (tail, e, n) = set-append pre junk c (omega arith) in
    let waits : flushes (length pre + 1) c ≡ false = ground arith in
    (
      tail,
      rw (waits, e)
          (ap₂ (λ l n. log_thread (record { cache = l; position = n }) reads)
            (sym (append_assoc pre (c ∷ []) tail)) (omega (arith, length-append pre (c ∷ [])))),
      omega (arith, length-append pre (c ∷ [])),
    )

abbrev fresh : Cache
fresh = record { cache = cleared; position = 0 }

-- The closing 0 of a message.
closes_message :
    (pre junk : Bytes) (reads : List (Option ℕ))
    → length pre + length junk ≡ 2048
    → length pre ≤ 2045
    → NonZero pre
    → log_thread (cache_of pre junk) (some 0 ∷ reads) ≡ line (some pre) (log_thread fresh reads)
unfolding log_thread
closes_message pre junk reads full short nz =
    let (tail, e, n) = set-append pre junk 0 (omega arith) in
    let goes : flushes (length pre + 1) 0 ≡ true = ground arith in
    rw (goes, e) (ap (λ o. line o (log_thread fresh reads)) (c_string-closed pre tail nz))

one_message :
    (m pre junk rest : Bytes)
    → length pre + length junk ≡ 2048
    → length pre + length m ≤ 2045
    → NonZero pre
    → NonZero m
    → log_thread (cache_of pre junk) (arrives (m ++ 0 ∷ rest))
      ≡ line (some (pre ++ m)) (log_thread fresh (arrives rest))
one_message [] pre junk rest full short np nm =
    closes_message pre junk (arrives rest) full (omega arith) np
    ∙ ap (λ l. line (some l) (log_thread fresh (arrives rest))) (sym (append-nil pre))
one_message (c ∷ m) pre junk rest full short np nm =
    let (tail, e, full') =
      keeps_byte pre junk c (arrives (m ++ 0 ∷ rest)) full (omega arith) nm.0 in
    e
    ∙ one_message m (pre ++ c ∷ []) tail rest full' (omega (arith, length-append pre (c ∷ [])))
        (NonZero-snoc pre c np nm.0) nm.1
    ∙ ap (λ l. line (some l) (log_thread fresh (arrives rest))) (append_assoc pre (c ∷ []) m)

-- Messages of at most 2045 bytes, none of them 0, that arrive one behind the other, each with its closing
-- 0, are the lines that the thread hands to syslog, whatever is in the cache first.
pub log_thread-packed :
    (ms : List Bytes) (junk : Bytes)
    → length junk ≡ 2048
    → AllShort ms
    → log_thread (record { cache = junk; position = 0 }) (arrives (packed ms)) ≡ some ms
log_thread-packed [] junk full short = unfold log_thread in refl
log_thread-packed (m ∷ ms) junk full short =
    one_message m [] junk (packed ms) (omega arith) (omega (arith, short.1)) tt short.0
    ∙ ap (line (some m)) (log_thread-packed ms cleared length-cleared short.2)
