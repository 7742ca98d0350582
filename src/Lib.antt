-- ===== src/Lib.antt =====
-- A digital identity wallet and its admin client, the two TypeScript programs of DID.WalletThesis/src.
-- The mobile wallet (mobile-wallet/src) keeps a key, a profile and credentials on a phone, unlocks them
-- by a PIN, answers presentation requests with zero-knowledge proofs and checks the responses of others.
-- The admin client (admin-client/src/app) lets authorities log in with a browser wallet, shows the pages
-- of their scope and issues and revokes accreditations and credentials on a chain.
--
-- Which file models what (paths within DID.WalletThesis/src):
--   Wallet/Storage       SecureStore and AsyncStorage as an interface with its laws
--   Wallet/Pin           mobile-wallet/src/services/pinService.ts
--   Wallet/Account       mobile-wallet/src/services/authService.ts; Lock: context/AuthContext.tsx
--   Wallet/Lookup        mobile-wallet/src/services/accreditationLookupService.ts
--   Wallet/Presentation  mobile-wallet/src/types/presentation.ts
--   Wallet/Bridge        mobile-wallet/src/services/zkpBridge.ts
--   Wallet/Zkp           mobile-wallet/src/services/zkpService.ts
--   Wallet/Consent       mobile-wallet/src/screens/PresentationConsentScreen.tsx
--   Wallet/History       mobile-wallet/src/services/presentationService.ts
--   Wallet/Incoming      mobile-wallet/src/screens/IncomingPresentationScreen.tsx, chainVerifier.ts;
--                        Issue: credentialIssuer.ts; Shown: when it shows an outcome
--   Wallet/Did           mobile-wallet/src/services/didService.ts
--   Wallet/Keypad        the keypad of the wizard and of the unlock screen
--   Wallet/Registration  mobile-wallet/src/screens/RegistrationWizardScreen.tsx (Events: the steps; Finish:
--                        handleFinish; Gate: the accreditation), context/RegistrationContext.tsx,
--                        services/euGeoService.ts, screens/WelcomeScreen.tsx
--   Wallet/Unlock        mobile-wallet/src/screens/UnlockSplashScreen.tsx; WalletLock: WalletScreen.tsx
--   Wallet/Editing       mobile-wallet/src/screens/EditPersonalProfileScreen.tsx
--   Wallet/Credentials   mobile-wallet/src/services/credentialService.ts
--   Wallet/Verifiers     mobile-wallet/src/services/zkpVerifierRegistryService.ts
--   Admin/ApiError       admin-client/src/app/core/utils/api-error.ts
--   Admin/Signer         admin-client/src/app/core/auth/signer.service.ts
--   Admin/Navigation     admin-client/src/app/core/services/navigation-state.service.ts
--   Admin/Auth           admin-client/src/app/core/auth/auth.service.ts and auth.models.ts
--   Admin/Guards         admin-client/src/app/core/auth/auth.guard.ts, scope.guard.ts, app.routes.ts
--   Admin/Interceptor    admin-client/src/app/core/auth/auth.interceptor.ts
--   Admin/Universities   admin-client/src/app/features/universities/universities.component.ts
--   Admin/Blockchain     admin-client/src/app/core/services/blockchain-client.service.ts; Registry: the
--                        accreditation, credential and enterprise-registration services beside it
-- Functions keep their names in snake_case. A call that changes state takes the state and returns it; a
-- call that can throw returns a `Result`. The parts meet as in the source: the session service calls the
-- signer and the navigation state, the guards and the interceptor read the session, the services post
-- what the blockchain client sent, the consent screen proves, submits and saves.
--
-- How the language is read. Numbers are natural numbers, and `none` stands for NaN and for an
-- invalid date. Texts are lists of code points, where JavaScript has UTF-16 units; `toLowerCase`
-- and `toUpperCase` act on ASCII letters, and `parseInt` reads digits without a sign or a blank
-- before them. A device whose storage refuses a call is not modelled, and a call runs to its end
-- before the next one starts, except for the checks of an incoming response, the requests to the
-- prover and those of the registration, whose ends are events in any order. Loops are recursion
-- over their list. The navigation of the admin client has a bound of one redirect, which is shown
-- to be enough.
--
-- Parameters are the code that is not here: the contracts and ethers, the browser's wallet, the
-- backend, Veramo, the biometric check, argon2, AES-GCM, SHA-256, base64, JSON, the prover of the
-- circuits and the list of Merkle paths. What is asked of them is a named law or a hypothesis, and
-- each is met by a concrete stand-in in the tests.
--
-- Not modelled: rendering, styles and navigation between screens; the lists of credentials and the
-- details of one; most of the pages of the admin client; the services in C# and the circuits.
pub mod Common
pub mod Wallet
pub mod Admin
