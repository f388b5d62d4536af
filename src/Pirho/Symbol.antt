-- ===== src/Pirho/Symbol.antt =====
-- The symbol table, src/sys/np/core/np_symbol.c. A symbol is not changed once it is in the queue,
-- so the queue and the cache hold symbols and not pointers to them. `nsym` counts blocks of
-- memory, so it does not wrap.
pub mod Cache
use l5lunos.Prelude.{
  ℕ, zero, suc, ◌+◌, Option, none, some, List, [], ◌∷◌, ◌++◌, leb, ◌==◌, if◌then◌else◌, Bytes,
  codes, same_text, set,
}
use l5lunos.Mem.Ptrbox.{Mem, CStr, ptrbox_alloc, ptrbox_strdup}
use l5lunos.Str.Itoa.{itoa_base10}

-- `name` is `none` where the pointer is NULL.
pub record Symbol : Type 0 where
  pub name : Option Bytes
  pub addr : ℕ
  pub id : ℕ

-- An entry of the cache that was never written is `none`: to follow it is a fault.
pub record SymList : Type 0 where
  pub symq : List Symbol
  pub cache : List (Option Symbol)
  pub nsym : ℕ
  pub cache_i : ℕ

-- What a lookup returns: 0 with the symbol, -1, or a fault.
pub data Lookup : Type 0 where
  found : Symbol → Lookup
  missing fault : Lookup

abbrev pub symcache_len : ℕ
symcache_len = 32

-- sizeof(struct symbol) on amd64
abbrev pub sizeof_symbol : ℕ
sizeof_symbol = 40

unfoldable pub symlist_init : List (Option Symbol) → SymList
symlist_init cache = record { symq = []; cache = cache; nsym = 0; cache_i = 0 }

unfoldable pub symbol_cache : SymList → Symbol → SymList
symbol_cache slp s =
    let i : ℕ = if leb symcache_len slp.cache_i then 0 else slp.cache_i in
    record slp { cache = set slp.cache i (some s); cache_i = i + 1 }

-- The loop over the first `n` entries of the cache, in `symbol_lookup_id`.
unfoldable pub scan_cache_id : ℕ → ℕ → List (Option Symbol) → Lookup
scan_cache_id id zero cache = missing
scan_cache_id id (suc n) [] = fault
scan_cache_id id (suc n) (none ∷ cache) = fault
scan_cache_id id (suc n) (some sym ∷ cache) =
    if sym.id == id then found sym else scan_cache_id id n cache

unfoldable pub scan_queue_id : ℕ → List Symbol → Lookup
scan_queue_id id [] = missing
scan_queue_id id (sym ∷ q) = if sym.id == id then found sym else scan_queue_id id q

-- A symbol that the queue gives is put into the cache.
abbrev pub remember : SymList → Lookup → Lookup × SymList
remember slp (found sym) = (found sym, symbol_cache slp sym)
remember slp r = (r, slp)

abbrev pub or_queue : SymList → Lookup → Lookup → Lookup × SymList
or_queue slp missing later = remember slp later
or_queue slp r later = (r, slp)

unfoldable pub symbol_lookup_id : ℕ → SymList → Lookup × SymList
symbol_lookup_id id slp =
    or_queue slp (scan_cache_id id slp.cache_i slp.cache) (scan_queue_id id slp.symq)

-- `strcmp` follows the name of a cached symbol, so a NULL name is a fault.
abbrev pub cached_name : Bytes → Symbol → Option Bytes → Lookup → Lookup
cached_name name sym none later = fault
cached_name name sym (some n) later = if same_text n name then found sym else later

unfoldable pub scan_cache_name : Bytes → ℕ → List (Option Symbol) → Lookup
scan_cache_name name zero cache = missing
scan_cache_name name (suc n) [] = fault
scan_cache_name name (suc n) (none ∷ cache) = fault
scan_cache_name name (suc n) (some sym ∷ cache) =
    cached_name name sym sym.name (scan_cache_name name n cache)

-- The queue's loop passes over a NULL name.
abbrev pub queued_name : Bytes → Symbol → Option Bytes → Lookup → Lookup
queued_name name sym none later = later
queued_name name sym (some n) later = if same_text n name then found sym else later

unfoldable pub scan_queue_name : Bytes → List Symbol → Lookup
scan_queue_name name [] = missing
scan_queue_name name (sym ∷ q) = queued_name name sym sym.name (scan_queue_name name q)

unfoldable pub symbol_lookup : Bytes → SymList → Lookup × SymList
symbol_lookup name slp =
    or_queue slp (scan_cache_name name slp.cache_i slp.cache) (scan_queue_name name slp.symq)

-- The text behind a string's pointer.
abbrev pub text_of : Option CStr → Option Bytes
text_of none = none
text_of (some s) = some s.text

-- The test is the wrong way round in the source: NULL is duplicated, and a name is replaced.
abbrev pub symbol_name : Option Bytes → ℕ → Mem → Option CStr × Mem
symbol_name none id m = ptrbox_strdup none m
symbol_name (some name) id m = ptrbox_strdup (some (codes "__internal." ++ itoa_base10 id)) m

abbrev pub symbol_enter :
    Option Bytes → ℕ → SymList → Option ℕ × Mem → Option Symbol × SymList × Mem
symbol_enter name addr slp (none, m) = (none, slp, m)
symbol_enter name addr slp (some _, m) =
    let (s, m') = symbol_name name slp.nsym m in
    let sym : Symbol = record { name = text_of s; addr = addr; id = slp.nsym } in
    (some sym, record slp { symq = slp.symq ++ sym ∷ []; nsym = slp.nsym + 1 }, m')

-- `none` is NULL, for the arguments and for the result.
unfoldable pub symbol_alloc :
    Option Bytes → Option ℕ → SymList → Mem → Option Symbol × SymList × Mem
symbol_alloc name none slp m = (none, slp, m)
symbol_alloc name (some addr) slp m = symbol_enter name addr slp (ptrbox_alloc sizeof_symbol m)
