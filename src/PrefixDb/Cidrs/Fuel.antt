-- ===== src/PrefixDb/Cidrs/Fuel.antt =====
-- The outer loop of rangeToCIDRs ends within the rounds that it is given.
