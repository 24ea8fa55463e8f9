-- ===== src/Utils/UniqueFd.antt =====
-- include/rtspserver/utils/UniqueFd.hpp: a descriptor that one object owns. The result of an
-- operation has the descriptors that it gives to `::close`.
use rtsp_server.Prelude.{ℕ, zero, Bool, true, false, [], ◌∷◌, List}
use rtsp_server.Prelude.Numbers.{ℤ, pos, negsuc}

-- `kInvalid`.
abbrev pub k_invalid : ℤ
k_invalid = negsuc zero

pub record UniqueFd : Type 0 where
  pub fd : ℤ

abbrev pub unset : UniqueFd
unset = record { fd = k_invalid }

abbrev pub valid_fd : ℤ → Bool
valid_fd (pos n) = true
valid_fd (negsuc n) = false

unfoldable pub valid : UniqueFd → Bool
valid u = valid_fd u.fd

-- `close`, which is also the destructor.
abbrev pub close_fd : ℤ → UniqueFd × List ℕ
close_fd (pos n) = (unset, n ∷ [])
close_fd (negsuc n) = (record { fd = negsuc n }, [])

unfoldable pub close : UniqueFd → UniqueFd × List ℕ
close u = close_fd u.fd

unfoldable pub release : UniqueFd → UniqueFd × ℤ
release u = (unset, u.fd)

unfoldable pub reset : ℤ → UniqueFd → UniqueFd × List ℕ
unfolding close
reset fd u = (record { fd = fd }, (close u).1)

-- The move assignment to another object: the target, the source, and what is closed.
unfoldable pub move : UniqueFd → UniqueFd → UniqueFd × UniqueFd × List ℕ
unfolding release reset
move o u = let (o', fd) = release o in let (u', closed) = reset fd u in (u', o', closed)
