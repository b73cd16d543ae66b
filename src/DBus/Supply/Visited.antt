-- ===== src/DBus/Supply/Visited.antt =====
-- src/core/entity/entity.cpp: the instances that `getInstances` visits for one without complex ones.
use obmc_webapp.Prelude.{◌≡◌, ap, [], ◌∷◌}
use obmc_webapp.Prelude.Maps.{insert_or_assign, nat_key}
use obmc_webapp.DBus.Values.{Platform}
use obmc_webapp.DBus.Instance.{DbusInstance}
use obmc_webapp.DBus.Supply.{own_hash, as_child, visited}

module _ (platform : Platform) where
  pub visited_alone :
      (i : DbusInstance platform)
      → i.complex_instances ≡ []
      → visited platform i ≡ (own_hash platform i, as_child platform i) ∷ []
  unfolding visited insert_or_assign
  visited_alone i h = ap (insert_or_assign (own_hash platform i) (as_child platform i)) h
