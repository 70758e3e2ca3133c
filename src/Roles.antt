-- ===== src/Roles.antt =====
-- The role identifiers of the contracts: `DEFAULT_ADMIN_ROLE` is zero, and each other one is the
-- keccak-256 value of its name, which the Solidity compiler puts for `keccak256("NAME")`.
use usdx_v.Base.{ℕ}

abbrev pub default_admin_role : ℕ
default_admin_role = 0

abbrev pub manager_admin : ℕ
manager_admin = 0x8c6dd8af24db306eb580672d47cf7dd23b8394bf74074f8ac14b948512ecdb03

abbrev pub pauser_admin : ℕ
pauser_admin = 0x9ac2c43e905fe4f0c030a0b0e4b805a284e79da32a5c9c71be1c68dd79bbb89d

abbrev pub price_id_setter_role : ℕ
price_id_setter_role = 0x830a9081649e91840eb0274e99b47626a896cfa0f4dd591cb31cd5060e566c0d

abbrev pub relayer_role : ℕ
relayer_role = 0xe2b7fb3b832174769106daebcfd6d1970523240dda11281102db9363b83b0dc4

abbrev pub timestamp_setter_role : ℕ
timestamp_setter_role = 0xced4eb9faeb19ab0e2e05a20ade58d82157e1035a3fbff4bc38dd5e609f22b93

abbrev pub price_update_role : ℕ
price_update_role = 0xf7650eb8b2f3fb3c9b995a8ee2fc3c04ed07f1c4efe01998177b109698c67517

abbrev pub setter_role : ℕ
setter_role = 0x61c92169ef077349011ff0b1383c894d86c5f0b41d986366b58a6cf31e93beda

abbrev pub allowlist_admin : ℕ
allowlist_admin = 0x0d5ac11ce98a7539557343d2c66c127dd8d0e8fb181c5ec16cb674ddf827d109

abbrev pub allowlist_setter : ℕ
allowlist_setter = 0x0c24059e922be4fa5a047081cbfa54efdf798eaf1522ed3f9b731a560ea8e28a

abbrev pub list_configurer_role : ℕ
list_configurer_role = 0xa74faf88a584437bd0449f37007060732f2e252b1607e7286651c9b6c1a74cba

abbrev pub burner_role : ℕ
burner_role = 0x3c11d16cbaffd01df69ce1c404f6340ee057498f5f00246190ea54220576a848

abbrev pub minter_role : ℕ
minter_role = 0x9f2df0fed2c77648de5860a4cc508cd0818c85b8b8a1ab4ceeef8d981c8956a6

abbrev pub pauser_role : ℕ
pauser_role = 0x65d7a28e3265b37a6474929f336521b332c1681b933f6cb9f3376673440d862a
