-- ===== src/Auth/Identity.antt =====
-- app/auth/identity.py: the user of a request. A UUID is a number.
use symmetrical_disco.Base.{ℕ, String}

pub record AuthedUser : Type 0 where
  pub id : ℕ
  pub name : String
