-- ===== src/MultiHandle/Store.antt =====
-- The clients of a sink: the GList, whose nodes are named by the addresses of the clients, and
-- the GHashTable from handles to nodes.
pub mod Laws
pub mod Put
pub mod Hash
use pulsevideo.Base.{ℕ, ◌==◌, if◌then◌else◌, Option, none, some, List, [], ◌∷◌}
use pulsevideo.MultiHandle.Types.{Client}

unfoldable pub find_client : ℕ → List Client → Option Client
find_client p [] = none
find_client p (c ∷ cs) = if c.ptr == p then some c else find_client p cs

-- A write through the pointer `p`.
pub update_client : ℕ → (Client → Client) → List Client → List Client
update_client p f [] = []
update_client p f (c ∷ cs) = if c.ptr == p then f c ∷ cs else c ∷ update_client p f cs

-- g_list_remove
pub delete_client : ℕ → List Client → List Client
delete_client p [] = []
delete_client p (c ∷ cs) = if c.ptr == p then cs else c ∷ delete_client p cs

-- g_hash_table_lookup
unfoldable pub hash_lookup : ℕ → List (ℕ × ℕ) → Option ℕ
hash_lookup h [] = none
hash_lookup h ((k, p) ∷ m) = if k == h then some p else hash_lookup h m

-- g_hash_table_remove
pub hash_remove : ℕ → List (ℕ × ℕ) → List (ℕ × ℕ)
hash_remove h [] = []
hash_remove h ((k, p) ∷ m) = if k == h then m else (k, p) ∷ hash_remove h m

-- g_hash_table_insert, which replaces the value of a key that is there.
unfoldable pub hash_insert : ℕ → ℕ → List (ℕ × ℕ) → List (ℕ × ℕ)
hash_insert h p m = (h, p) ∷ hash_remove h m

-- The entries that the hash table should hold.
abbrev pub index : List Client → List (ℕ × ℕ)
index [] = []
index (c ∷ cs) = (c.handle, c.ptr) ∷ index cs
