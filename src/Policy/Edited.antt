-- ===== src/Policy/Edited.antt =====
-- The local edits of pi4/lib/hioc/asset_policy.py as their callers see them.
use hioc.Base.{◌≡◌, true, some, Error, nat_key, policy, store_unavailable, false}
use hioc.Policy.Types.{World, Files, Versioned}
use hioc.Policy.Files.{Writes, durable}
use hioc.Policy.Service.{Surroundings}

module _ (w : World) (env : Surroundings) (reflexive : (v : Versioned) → w.equal v v ≡ true) where
  -- A local edit that raised without the mark of uncertainty has not touched the store; or it has
  -- committed a store, which the witness proves durable, and could not read the status afterwards.
  pub data Raised (d : Writes) (e : Error) (s t : Files) : Type 0 where
    untouched : t.store ≡ s.store → Raised d e s t
    unread :
        (v : Versioned)
        → d.readable ≡ false
        → e ≡ policy store_unavailable false
        → t.store ≡ some v
        → durable w v t ≡ true
        → Raised d e s t
