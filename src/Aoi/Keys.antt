-- ===== src/Aoi/Keys.antt =====
-- The keys of the cells of AOIServer.cpp: 32 bits of map, 16 of each coordinate.
use rpg_server.Base.{ℕ, ◌*◌, ◌%◌, ◌<◌, ◌≡◌, ◌↔◌, arith, nat_eq, ℤ, low16, low32}
use rpg_server.Base.{pos, negsuc}
use rpg_server.Aoi.{Grid, key, query_key}

low32-shifted : (z : ℤ) → (low32 z * 65536) % 4294967296 ≡ low16 z * 65536
low32-shifted (pos n) = omega arith
low32-shifted (negsuc n) = omega arith

low16-below : (z : ℤ) → low16 z < 65536
low16-below (pos n) = omega arith
low16-below (negsuc n) = omega arith

-- GetEntitiesInGrid asks for the key under which onEnter, onMove and onLeave keep a cell, for every
-- map and every cell, although it casts the first coordinate to 32 bits and they cast it to 16.
pub query_key_lem : (map_id : ℕ) (g : Grid) → query_key map_id g ≡ key map_id g
unfolding query_key key
query_key_lem map_id g = omega (arith, low32-shifted g.gx)

-- Two cells have the same key exactly where they are of the same map and their coordinates agree
-- modulo 2^16.
key_same :
    (m n : ℕ) (g h : Grid)
    → (key m g ≡ key n h) ↔ ((m ≡ n) × (low16 g.gx ≡ low16 h.gx) × (low16 g.gz ≡ low16 h.gz))
unfolding key
key_same m n g h =
    ground (arith, low16-below g.gx, low16-below g.gz, low16-below h.gx, low16-below h.gz)
