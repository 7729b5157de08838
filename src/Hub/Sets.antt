-- ===== src/Hub/Sets.antt =====
-- Sets of clients of backend/websocket/hub.go: no client is in one twice.
use realmrunner.Common.{ℕ, ◌==◌, ◌≡◌, ◌∙◌, inl, inr, String, false, not, ◌&&◌}
use realmrunner.Common.{List, [], ◌∷◌, if◌then◌else◌, arith, Bool-cases}
use realmrunner.Common.{str_eq}
use realmrunner.Common.Assoc.{insert, lookup-insert, lookup-erase}
use realmrunner.Hub.{Hub, is_in, leave_out, members, with_member, shrunk}

-- No client twice.
abbrev pub Unique : List ℕ → Type 0
Unique [] = Unit
Unique (c ∷ cs) = (is_in c cs ≡ false) × Unique cs

pub is_in-leave_out :
    (gone c : ℕ) (cs : List ℕ) → is_in c (leave_out gone cs) ≡ (not (gone == c) && is_in c cs)
unfolding leave_out
is_in-leave_out gone c [] = ground arith
is_in-leave_out gone c (d ∷ cs) = ground (arith, is_in-leave_out gone c cs)

pub leave_out-Unique : (gone : ℕ) (cs : List ℕ) → Unique cs → Unique (leave_out gone cs)
unfolding leave_out
leave_out-Unique gone [] h = tt
leave_out-Unique gone (c ∷ cs) (a, h) = elim (Bool-cases (c == gone)) [
  | inl e ↦ rw (leave_out, e) (leave_out-Unique gone cs h)
  | inr e ↦
      rw (leave_out, e) (is_in-leave_out gone c cs ∙ ground (arith, a), leave_out-Unique gone cs h)
]

pub with_member-Unique : (c : ℕ) (cs : List ℕ) → Unique cs → Unique (with_member c cs)
with_member-Unique c cs h = elim (Bool-cases (is_in c cs)) [ inl e ↦ rw e h | inr e ↦ rw e (e, h) ]

pub members-insert :
    (changed server : String) (cs : List ℕ) (h : Hub)
    → members server (record h { clients = insert changed cs h.clients })
      ≡ (if str_eq changed server then cs else members server h)
unfolding members
members-insert changed server cs h = rw lookup-insert (ground arith)

pub members-shrunk :
    (changed server : String) (cs : List ℕ) (h : Hub)
    → members server (record h { clients = shrunk changed cs h.clients })
      ≡ (if str_eq changed server then cs else members server h)
unfolding members
members-shrunk changed server [] h = rw lookup-erase (ground arith)
members-shrunk changed server (c ∷ cs) h = rw lookup-insert (ground arith)
