-- ===== src/Pirho/Symbol/Cache.antt =====
-- The well formed symbol tables of src/sys/np/core/np_symbol.c, and proofs on lookup and entry.
use native.Mathlib.Numerals.{add-one}
use l5lunos.Prelude.{
  ℕ, zero, suc, ◌+◌, ◌≤◌, ◌<◌, ◌≡◌, refl, sym, ◌∙◌, ◌⊎◌, inl, inr, Bool-cases, Option, none, some,
  List, [], ◌∷◌, ◌++◌, arith, leb, ◌==◌, ==_iff, if◌then◌else◌, Bytes, length, set, length-set,
}
use l5lunos.Mem.Ptrbox.{Mem, ptrbox_alloc}
use l5lunos.Pirho.Symbol.{
  Symbol, SymList, Lookup, found, missing, fault, symcache_len, sizeof_symbol, symlist_init,
  symbol_cache, scan_cache_id, scan_queue_id, remember, symbol_lookup_id, symbol_enter,
  symbol_alloc,
}

-- Each of the first `n` entries is the symbol that the queue `q` has under its number.
abbrev pub IsCached : List Symbol → ℕ → List (Option Symbol) → Type 0
IsCached q zero cache = Unit
IsCached q (suc n) [] = ⊥
IsCached q (suc n) (none ∷ cache) = ⊥
IsCached q (suc n) (some sym ∷ cache) = (scan_queue_id sym.id q ≡ found sym) × IsCached q n cache

pub record IsValid (slp : SymList) : Type 0 where
  pub size : length slp.cache ≡ symcache_len
  pub index : slp.cache_i ≤ symcache_len
  pub cached : IsCached slp.symq slp.cache_i slp.cache
  pub fresh : (id : ℕ) → slp.nsym ≤ id → scan_queue_id id slp.symq ≡ missing

IsCached-set :
    (q : List Symbol) (n i : ℕ) (cache : List (Option Symbol)) (s : Symbol)
    → i ≤ n
    → i < length cache
    → scan_queue_id s.id q ≡ found s
    → IsCached q n cache
    → IsCached q (suc i) (set cache i (some s))
IsCached-set q n zero [] s h k f c = absurd (omega arith)
IsCached-set q n zero (x ∷ cache) s h k f c = (f, tt)
IsCached-set q zero (suc i) cache s h k f c = absurd (omega arith)
IsCached-set q (suc n) (suc i) [] s h k f c = absurd (omega arith)
IsCached-set q (suc n) (suc i) (none ∷ cache) s h k f c = absurd c
IsCached-set q (suc n) (suc i) (some t ∷ cache) s h k f c =
    (c.0, IsCached-set q n i cache s (omega arith) (omega arith) f c.1)

scan_queue_id-found :
    (id : ℕ) (q : List Symbol) (s : Symbol) → scan_queue_id id q ≡ found s → s.id ≡ id
unfolding scan_queue_id
scan_queue_id-found id [] s h = cc
scan_queue_id-found id (x ∷ q) s h = ground (arith, scan_queue_id-found id q s)

-- What the cache gives is what the queue has.
scan_cache_id-IsCached :
    (id : ℕ) (q : List Symbol) (n : ℕ) (cache : List (Option Symbol))
    → IsCached q n cache
    → (scan_cache_id id n cache ≡ missing)
      ⊎ ((s : Symbol) × (scan_cache_id id n cache ≡ found s) × (scan_queue_id id q ≡ found s))
unfolding scan_cache_id
scan_cache_id-IsCached id q zero cache c = inl refl
scan_cache_id-IsCached id q (suc n) [] c = absurd c
scan_cache_id-IsCached id q (suc n) (none ∷ cache) c = absurd c
scan_cache_id-IsCached id q (suc n) (some t ∷ cache) c = elim (Bool-cases (t.id == id)) [
  | inl e ↦ inr (t, simp e refl, rw (← (==_iff t.id id).0 e) c.0)
  | inr e ↦ simp e (scan_cache_id-IsCached id q n cache c.1)
]

pub scan_queue_id-ne-fault : (id : ℕ) (q : List Symbol) → scan_queue_id id q ≡ fault → ⊥
unfolding scan_queue_id
scan_queue_id-ne-fault id [] h = cc
scan_queue_id-ne-fault id (x ∷ q) h = ground (arith, scan_queue_id-ne-fault id q)

symbol_cache-IsValid :
    (slp : SymList) (s : Symbol)
    → IsValid slp
    → scan_queue_id s.id slp.symq ≡ found s
    → IsValid (symbol_cache slp s)
unfolding symbol_cache
symbol_cache-IsValid slp s v f = elim (Bool-cases (leb symcache_len slp.cache_i)) [
  | inl e ↦ simp e (record {
    size = length-set slp.cache 0 (some s) ∙ v.size;
    index = omega arith;
    cached = at_index 0 (omega arith) (omega (arith, v.size));
    fresh = v.fresh;
  })
  | inr e ↦ simp e (record {
    size = length-set slp.cache slp.cache_i (some s) ∙ v.size;
    index = ground arith;
    cached = rw add-one (at_index slp.cache_i (omega arith) (ground (arith, v.size)));
    fresh = v.fresh;
  })
]
  where
    at_index :
        (i : ℕ)
        → i ≤ slp.cache_i
        → i < length slp.cache
        → IsCached slp.symq (suc i) (set slp.cache i (some s))
    at_index i h k = IsCached-set slp.symq slp.cache_i i slp.cache s h k f v.cached

-- `r` is the result of a lookup of `id` that leaves the table as it was, up to its cache.
pub record Answers (id : ℕ) (slp : SymList) (r : Lookup × SymList) : Type 0 where
  pub result : r.0 ≡ scan_queue_id id slp.symq
  pub valid : IsValid r.1
  pub same_queue : r.1.symq ≡ slp.symq
  pub same_count : r.1.nsym ≡ slp.nsym

remember-Answers :
    (id : ℕ) (slp : SymList) (r : Lookup)
    → IsValid slp
    → scan_queue_id id slp.symq ≡ r
    → Answers id slp (remember slp r)
unfolding symbol_cache
remember-Answers id slp missing v e = record {
  result = sym e;
  valid = v;
  same_queue = refl;
  same_count = refl;
}
remember-Answers id slp fault v e = absurd (scan_queue_id-ne-fault id slp.symq e)
remember-Answers id slp (found s) v e = record {
  result = sym e;
  valid = symbol_cache-IsValid slp s v (simp (scan_queue_id-found id slp.symq s e) e);
  same_queue = refl;
  same_count = refl;
}

-- On a well formed table `symbol_lookup_id` never faults: it returns the symbol that the queue
-- has under the number, or -1 where the queue has none, whatever the cache holds, and it keeps
-- the table well formed.
pub symbol_lookup_id-Answers :
    (id : ℕ) (slp : SymList) → IsValid slp → Answers id slp (symbol_lookup_id id slp)
unfolding symbol_lookup_id
symbol_lookup_id-Answers id slp v =
    elim (scan_cache_id-IsCached id slp.symq slp.cache_i slp.cache v.cached) [
      | inl e ↦ rw e (remember-Answers id slp (scan_queue_id id slp.symq) v refl)
      | inr (s, e, f) ↦
          rw e (record { result = sym f; valid = v; same_queue = refl; same_count = refl })
    ]

scan_queue_id-append :
    (id : ℕ) (q : List Symbol) (s : Symbol)
    → scan_queue_id id q ≡ missing
    → scan_queue_id id (q ++ s ∷ []) ≡ (if s.id == id then found s else missing)
unfolding scan_queue_id
scan_queue_id-append id [] s h = refl
scan_queue_id-append id (x ∷ q) s h = ground (arith, scan_queue_id-append id q s)

scan_queue_id-append_found :
    (id : ℕ) (q : List Symbol) (s t : Symbol)
    → scan_queue_id id q ≡ found t
    → scan_queue_id id (q ++ s ∷ []) ≡ found t
unfolding scan_queue_id
scan_queue_id-append_found id [] s t h = cc
scan_queue_id-append_found id (x ∷ q) s t h = ground (arith, scan_queue_id-append_found id q s t)

IsCached-append :
    (q : List Symbol) (s : Symbol) (n : ℕ) (cache : List (Option Symbol))
    → IsCached q n cache
    → IsCached (q ++ s ∷ []) n cache
IsCached-append q s zero cache c = tt
IsCached-append q s (suc n) [] c = absurd c
IsCached-append q s (suc n) (none ∷ cache) c = absurd c
IsCached-append q s (suc n) (some t ∷ cache) c =
    (scan_queue_id-append_found t.id q s t c.0, IsCached-append q s n cache c.1)

-- The table with one more symbol, under the next number.
abbrev pub entered : SymList → Symbol → SymList
entered slp s = record slp { symq = slp.symq ++ s ∷ []; nsym = slp.nsym + 1 }

pub entered-IsValid :
    (slp : SymList) (s : Symbol) → IsValid slp → s.id ≡ slp.nsym → IsValid (entered slp s)
entered-IsValid slp s v e = record {
  size = v.size;
  index = v.index;
  cached = IsCached-append slp.symq s slp.cache_i slp.cache v.cached;
  fresh = λ id h. scan_queue_id-append id slp.symq s (v.fresh id (omega arith)) ∙ ground arith;
}

pub symlist_init-IsValid :
    (cache : List (Option Symbol)) → length cache ≡ symcache_len → IsValid (symlist_init cache)
unfolding symlist_init scan_queue_id
symlist_init-IsValid cache h = record {
  size = h;
  index = omega arith;
  cached = tt;
  fresh = λ id k. refl;
}

-- `r` is the result of an attempt to add a symbol.
pub record Enters (slp : SymList) (r : Option Symbol × SymList × Mem) : Type 0 where
  pub valid : IsValid r.1
  pub gives : (s : Symbol) → r.0 ≡ some s → scan_queue_id slp.nsym r.1.symq ≡ found s
  pub keeps :
      (id : ℕ) (t : Symbol)
      → scan_queue_id id slp.symq ≡ found t
      → scan_queue_id id r.1.symq ≡ found t

no_entry-Enters : (slp : SymList) (m : Mem) → IsValid slp → Enters slp (none, slp, m)
no_entry-Enters slp m v = record { valid = v; gives = λ s e. cc; keeps = λ id t e. e }

entered-Enters :
    (slp : SymList) (s : Symbol) (m : Mem)
    → IsValid slp
    → s.id ≡ slp.nsym
    → Enters slp (some s, entered slp s, m)
entered-Enters slp s m v e = record {
  valid = entered-IsValid slp s v e;
  gives = λ t h.
      scan_queue_id-append slp.nsym slp.symq s (v.fresh slp.nsym (omega arith)) ∙ ground arith;
  keeps = λ id t h. scan_queue_id-append_found id slp.symq s t h;
}

symbol_enter-Enters :
    (name : Option Bytes) (addr : ℕ) (slp : SymList) (r : Option ℕ × Mem)
    → IsValid slp
    → Enters slp (symbol_enter name addr slp r)
symbol_enter-Enters name addr slp (none, m) v = no_entry-Enters slp m v
symbol_enter-Enters name addr slp (some p, m) v = entered-Enters slp _ _ v refl

-- `symbol_alloc` keeps a well formed table well formed on every branch; a symbol that it returns
-- is found under the number `nsym`, and every symbol that was found by its number still is.
pub symbol_alloc-Enters :
    (name : Option Bytes) (addr : Option ℕ) (slp : SymList) (m : Mem)
    → IsValid slp
    → Enters slp (symbol_alloc name addr slp m)
unfolding symbol_alloc
symbol_alloc-Enters name none slp m v = no_entry-Enters slp m v
symbol_alloc-Enters name (some a) slp m v =
    symbol_enter-Enters name a slp (ptrbox_alloc sizeof_symbol m) v
