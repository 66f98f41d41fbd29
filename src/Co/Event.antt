-- ===== src/Co/Event.antt =====
-- lw/co/events.h: sets of events as 16-bit masks, and in lw/co/systems/epoll.cpp the masks of epoll
-- they stand for. The EPOLL constants are those of Linux.
use liblw.Prelude.{
  ℕ, zero, suc, ◌+◌, ◌*◌, ◌/◌, ◌%◌, Bool, not, ◌&&◌, ◌||◌, List, [], ◌∷◌, ◌==◌, if◌then◌else◌,
}

-- the mask of `w` bits whose bits are `op` of those of `a` and `b`
unfoldable pub bitwise : (Bool → Bool → Bool) → ℕ → ℕ → ℕ → ℕ
bitwise op zero a b = 0
bitwise op (suc w) a b =
    (if op (a % 2 == 1) (b % 2 == 1) then 1 else 0) + 2 * bitwise op w (a / 2) (b / 2)

abbrev pub readable : ℕ
readable = 1

abbrev pub writable : ℕ
writable = 2

abbrev pub read_closed : ℕ
read_closed = 4

abbrev pub peer_closed : ℕ
peer_closed = 8

abbrev pub pollpri : ℕ
pollpri = 16

abbrev pub error : ℕ
error = 32

abbrev pub edge_trigger : ℕ
edge_trigger = 64

abbrev pub one_shot : ℕ
one_shot = 128

abbrev pub wake_up : ℕ
wake_up = 256

abbrev pub exclusive : ℕ
exclusive = 512

-- `operator|` and `operator+`
unfoldable pub join : ℕ → ℕ → ℕ
unfolding bitwise
join lhs rhs = bitwise (λ a b. a || b) 16 lhs rhs

-- `operator-`
unfoldable pub without : ℕ → ℕ → ℕ
unfolding bitwise
without lhs rhs = bitwise (λ a b. a && not b) 16 lhs rhs

-- `operator&`, which gives a Boolean
unfoldable pub meets : ℕ → ℕ → Bool
unfolding bitwise
meets lhs rhs = not (bitwise (λ a b. a && b) 16 lhs rhs == 0)

-- The events in the order in which they are tested, each with its EPOLL constant.
abbrev epoll_masks : List (ℕ × ℕ)
epoll_masks =
    (readable, 0x001)
    ∷ (writable, 0x004)
    ∷ (read_closed, 0x2000)
    ∷ (peer_closed, 0x010)
    ∷ (pollpri, 0x002)
    ∷ (error, 0x008)
    ∷ (edge_trigger, 0x80000000)
    ∷ (one_shot, 0x40000000)
    ∷ (wake_up, 0x20000000)
    ∷ (exclusive, 0x10000000)
    ∷ []

add_masks : ℕ → List (ℕ × ℕ) → ℕ → ℕ
unfolding bitwise
add_masks events [] ret = ret
add_masks events ((event, mask) ∷ masks) ret =
    let more = if meets events event then bitwise (λ a b. a || b) 32 ret mask else ret in
    add_masks events masks more

-- `co_event_to_epoll_event`
unfoldable pub co_event_to_epoll_event : ℕ → ℕ
unfolding add_masks
co_event_to_epoll_event events = add_masks events epoll_masks 0
