-- ===== src/Conf/Layers.antt =====
-- The order of the layers, for src/conf/mod.rs.
use bytehub.Prelude.{◌≡◌, refl, ap, List, [], ◌∷◌, ◌++◌, map}
use bytehub.Conf.{
  EndpointConf, CmdOverride, FullConf, apply_cmd_opts, apply_global_opts, take_fields,
  from_conf_parts,
}
use bytehub.Conf.Net
use bytehub.Conf.Net.{NetConf}
use bytehub.Conf.Net.Laws.{layered, rst_field-layered, rst_field-take_field, take_field-take_field}
use bytehub.Conf.Dns
use bytehub.Conf.Log

module _ (c : FullConf) (opts : CmdOverride) where
  endpoints_layered :
      (es : List EndpointConf)
      → map
          (λ (x : EndpointConf). record x { network = Net.rst_field x.network opts.network })
          (map (λ (x : EndpointConf). record x { network = Net.take_field x.network c.network }) es)
        ≡ map
            (λ (x : EndpointConf). record x { network = layered opts.network x.network c.network })
            es
  endpoints_layered [] = refl
  endpoints_layered (e ∷ es) =
      rw (endpoints_layered es, rst_field-layered opts.network e.network c.network)

  -- After the global options and then those of the command line are applied to a configuration, every
  -- network option of every endpoint comes from the command line if it is set there, or else from the
  -- endpoint, or else from the global options; nothing else of an endpoint changes, nor do the order
  -- and the number of the endpoints.
  pub apply_opts-layered :
      (apply_cmd_opts (apply_global_opts c) opts).endpoints
      ≡ map
          (λ (x : EndpointConf). record x { network = layered opts.network x.network c.network })
          c.endpoints
  unfolding apply_cmd_opts apply_global_opts
  apply_opts-layered = endpoints_layered c.endpoints

  endpoints_commute :
      (es : List EndpointConf)
      → map
          (λ (x : EndpointConf). record x { network = Net.rst_field x.network opts.network })
          (map (λ (x : EndpointConf). record x { network = Net.take_field x.network c.network }) es)
        ≡ map
            (λ (x : EndpointConf). record x { network = Net.take_field x.network c.network })
            (map
              (λ (x : EndpointConf). record x { network = Net.rst_field x.network opts.network })
              es)
  endpoints_commute [] = refl
  endpoints_commute (e ∷ es) =
      rw (endpoints_commute es, rst_field-take_field e.network c.network opts.network)

  -- The command line and the global options can be applied in either order.
  pub apply_cmd_opts-apply_global_opts :
      apply_cmd_opts (apply_global_opts c) opts ≡ apply_global_opts (apply_cmd_opts c opts)
  unfolding apply_cmd_opts apply_global_opts
  apply_cmd_opts-apply_global_opts = rw (endpoints_commute c.endpoints)

++_assoc {ℓ} : {A : Type ℓ} (xs ys zs : List A) → (xs ++ ys) ++ zs ≡ xs ++ (ys ++ zs)
++_assoc [] ys zs = refl
++_assoc (x ∷ xs) ys zs = ap (λ t. x ∷ t) (++_assoc xs ys zs)

pub take_fields-take_fields :
    (a b c : FullConf) → take_fields (take_fields a b) c ≡ take_fields a (take_fields b c)
unfolding take_fields
take_fields-take_fields a b c =
    simp (take_field-take_field, Dns.take_field_assoc, Log.take_field_assoc, ++_assoc)

-- The files of a directory merge as one: reading the files before a point and the files from there
-- on into two configurations, and taking the second into the first, is reading them in a row. So for
-- each option the first file that sets it counts, and the endpoints of all files are kept in order.
pub from_conf_parts-take_fields :
    (a b : FullConf) (xs : List FullConf)
    → from_conf_parts (take_fields a b) xs ≡ take_fields a (from_conf_parts b xs)
unfolding from_conf_parts
from_conf_parts-take_fields a b [] = refl
from_conf_parts-take_fields a b (x ∷ xs) =
    rw (take_fields-take_fields a b x) (from_conf_parts-take_fields a (take_fields b x) xs)
