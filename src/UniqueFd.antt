-- ===== src/UniqueFd.antt =====
-- src/util/unique_fd.hpp: the owner of a descriptor. `none` is -1. What is closed is kept in a list.
use http.Base.{
  ℕ, ◌+◌, ◌≡◌, arith, Bool, true, false, List, [], ◌∷◌, ◌++◌, Option, none, some, ◌==◌,
  if◌then◌else◌,
}

abbrev pub UniqueFd : Type 0
UniqueFd = Option ℕ

unfoldable pub valid : UniqueFd → Bool
valid none = false
valid (some fd) = true

-- What is returned, and what is left.
unfoldable pub release : UniqueFd → UniqueFd × UniqueFd
release owner = (owner, none)

-- `if (fd_ >= 0) ::close(fd_);`.
unfoldable pub close_owned : UniqueFd → List ℕ → List ℕ
close_owned none closed = closed
close_owned (some fd) closed = closed ++ (fd ∷ [])

-- The new owner, and what has been closed.
unfoldable pub reset : UniqueFd → UniqueFd → List ℕ → UniqueFd × List ℕ
unfolding close_owned
reset owner fd closed = (fd, close_owned owner closed)

-- `operator=(UniqueFd&&)`, for two owners: the one assigned to, the one moved from, and what has been
-- closed.
unfoldable pub move_assign : UniqueFd → UniqueFd → List ℕ → UniqueFd × UniqueFd × List ℕ
unfolding release reset
move_assign owner other closed =
    let (fd, left) = release other in
    let (assigned, closed') = reset owner fd closed in (assigned, left, closed')

-- `~UniqueFd`.
unfoldable pub destroy : UniqueFd → List ℕ → List ℕ
unfolding reset
destroy owner closed = (reset owner none closed).1

-- How many times a descriptor is in a list.
abbrev pub count : ℕ → List ℕ → ℕ
count fd [] = 0
count fd (x ∷ xs) = (if fd == x then 1 else 0) + count fd xs

pub count-append : (fd : ℕ) (xs ys : List ℕ) → count fd (xs ++ ys) ≡ count fd xs + count fd ys
count-append fd [] ys = omega arith
count-append fd (x ∷ xs) ys = omega (arith, count-append fd xs ys)

-- How many times it is owned.
abbrev pub owns : ℕ → UniqueFd → ℕ
owns fd none = 0
owns fd (some x) = if fd == x then 1 else 0

pub close_owned-count :
    (fd : ℕ) (owner : UniqueFd) (closed : List ℕ)
    → count fd (close_owned owner closed) ≡ count fd closed + owns fd owner
unfolding close_owned
close_owned-count fd none closed = omega arith
close_owned-count fd (some x) closed = omega (arith, count-append fd closed (x ∷ []))
