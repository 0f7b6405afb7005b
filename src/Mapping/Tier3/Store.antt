-- ===== src/Mapping/Tier3/Store.antt =====
-- The cache in memory, `InMemoryCache` of mapping/tier3.py, as a store of what was put last.
use harbormaster.Prelude.{
  ◌≡◌, refl, ◌&&◌, some, List, [], ◌∷◌, String, string_eq, ◌==◌, if◌then◌else◌, arith,
}
use harbormaster.Prelude.Dict.{Dict}
use harbormaster.Mapping.Tier3.{InMemoryCache, stored, get, put_in, put}

stored-put_in :
    (f f' c c' : String) (m : Dict String String)
    (l : List (String × (String × Dict String String)))
    → stored f' c' (put_in f c m l) ≡ (if (f == f') && (c == c') then some m else stored f' c' l)
unfolding stored put_in
stored-put_in f f' c c' m [] = refl
stored-put_in f f' c c' m ((f'', (c'', n)) ∷ l) = ground (
  arith,
  stored-put_in f f' c c' m l,
  string_eq.beq_iff f'' f,
  string_eq.beq_iff c'' c,
  string_eq.beq_iff f'' f',
  string_eq.beq_iff c'' c',
  string_eq.beq_iff f f',
  string_eq.beq_iff c c',
)

-- After a put, a get finds the mappings put for its own template and client, and for every other what it
-- found before.
pub get-put :
    (cache : InMemoryCache) (f f' c c' : String) (m : Dict String String)
    → (get (put cache f c m) f' c').0
      ≡ (if (f == f') && (c == c') then some m else (get cache f' c').0)
unfolding get put
get-put cache f f' c c' m = stored-put_in f f' c c' m cache.store
