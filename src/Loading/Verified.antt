-- ===== src/Loading/Verified.antt =====
-- Which objects a generation is loaded from (load.go: LoadGeneration).
use krouter.Prelude.{
  ℕ, ◌≡◌, inl, inr, ◌↔◌, Option, some, Option-cases, ok, err, >>=-eq-ok, map_err-eq-ok,
}
use krouter.Compiled.{GatewayConfig, Manifest}
use krouter.Routing.Types.{GatewayTable}
use krouter.Routing.Build.{build_gateway_table}
use krouter.Loading.{
  RawConfig, LoadError, Collected, nothing_collected, Codec, collect, finish, load_generation,
}
use krouter.Loading.Taken.{Collects, collect-Collects, Collects-collect}

module _ (codec : Codec) (next : ℕ) (manifest : Manifest) (raw : RawConfig)
    (previous : Option GatewayTable) (out : GatewayTable × ℕ) where
  -- The generation is complete and verified, and the tables are built from it.
  abbrev pub IsLoaded : Type 0
  IsLoaded =
      (c : Collected) × Collects codec manifest.gateway_uid raw manifest.objects nothing_collected c
      × (g : GatewayConfig) × (c.gateway ≡ some g)
      × (build_gateway_table codec.toolkit codec.notation next manifest.generation g c.routes
            c.secret previous
          ≡ ok out)

  finish_sound :
      (c : Collected)
      → finish codec next manifest.generation previous c ≡ ok out
      → (g : GatewayConfig) × (c.gateway ≡ some g)
        × (build_gateway_table codec.toolkit codec.notation next manifest.generation g c.routes
              c.secret previous
            ≡ ok out)
  unfolding finish
  finish_sound c h = elim (Option-cases c.gateway) [
    | inl missing ↦
        let no_value : err LoadError.no_gateway_config ≡ ok out = rw (missing, finish) at h in cc
    | inr (g, found) ↦ (g, found, map_err-eq-ok _ _ (rw (found, finish) at h))
  ]

  -- A generation is loaded exactly if every object that its manifest lists is there under its name,
  -- carries the gateway's identity, has the listed checksum and a known kind and role, and decodes,
  -- if one of them is a gateway configuration, and if the tables can be built from what they hold;
  -- these tables are the result.
  pub load_generation_iff : (load_generation codec next manifest raw previous ≡ ok out) ↔ IsLoaded
  unfolding load_generation finish
  load_generation_iff = (
    (λ h.
        let (c, collected, rest) =
          >>=-eq-ok (collect codec manifest.gateway_uid raw manifest.objects nothing_collected)
            (finish codec next manifest.generation previous) h in
        let (g, found, table) = finish_sound c rest in
        (
          c,
          collect-Collects codec manifest.gateway_uid raw manifest.objects nothing_collected c
              collected,
          g,
          found,
          table,
        )),
    (λ (c, collected, g, found, table).
        rw (Collects-collect codec manifest.gateway_uid raw collected, found, finish, table)),
  )
